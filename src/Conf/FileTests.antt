-- ===== src/Conf/FileTests.antt =====
-- src/conf/conf_file.c at concrete inputs.
use hpulogc.Prelude.{
  ℕ, ◌-◌, ◌==◌, ◌*◌, ◌^◌, ◌%◌, ◌≡◌, refl, true, false, List, [], ◌∷◌, ◌++◌, Option, none, some,
  Bool, arith, Bytes, codes, replicate, length-replicate, if◌then◌else◌, leb,
}
use hpulogc.Ring.State.{Ring, Msg, dropped, discard}
use hpulogc.Ring.Views.{IsFit, length-payload}
use hpulogc.Ring.Outcomes.{put-returned, round_closed}
use hpulogc.Ring.TooLong.{Dropped}
use hpulogc.Conf.Model.{Conf, conf_defaults}
use hpulogc.Conf.Values.{
  eqcase, index_of, parse_level, skip_spaces, digits, to_long, strtol, scan_number, strtoull,
  suffix_factor, parse_size, clamp_long, strip_quotes, trim,
}
use hpulogc.Conf.Global.{parse_global, parse_buffer_key, parse_advanced}
use hpulogc.Conf.Lines.{split_at}
use hpulogc.Conf.File.{
  Uses, Parser, header_name, enter, key_value, parse_key_value, set_key, conf_line_cb, first_parser,
  loaded_conf,
}
use hpulogc.Conf.Order.{Ascending, sections, feed, feed-Ascending}
use hpulogc.Conf.Sizes.{number_from, million, parse_size-digits}
use hpulogc.Conf.Unraised.{Sized, unraised_buffer}
use hpulogc.Fields.Keys.{skip_blanks, trim_end}

-- A build with every part, which compiles every template and has no sink types of its own.
abbrev full : Uses
full = record {
  build = record { source_loc = true; hot_reload = true; has_async = true; has_throttle = true };
  compiles = λ name template. true;
  registered = λ type. false;
  divisor = λ v. 1;
}

abbrev regular : Bytes → Bool
regular path = true

abbrev content : Bytes
content = codes "[global]" ++ 10 ∷ codes "level = WARN # less" ++ 10 ∷ codes "[advanced]" ++ 10 ∷ []

abbrev reads : Bytes → Option Bytes
reads path = some content

abbrev warned : Conf
warned = loaded_conf (codes "a") (record conf_defaults { level = 3 })

abbrev three : List Bytes
three = codes "[global]" ∷ codes "level = warn" ∷ codes "[Advanced]" ∷ []

abbrev ends : Parser
ends =
    let p = first_parser conf_defaults true in
    record p {
      conf = record conf_defaults { level = 3 };
      cur_section = some 8;
      seen = λ k. if k == 8 then true else (if k == 1 then true else false);
    }

feed-three : feed full 1 three (first_parser conf_defaults true) ≡ some ends
unfolding feed conf_line_cb enter header_name split_at index_of eqcase set_key key_value trim
    skip_blanks trim_end strip_quotes parse_key_value parse_global parse_level conf_defaults
feed-three = refl

feed-Ascending_example : Ascending none (sections three)
feed-Ascending_example =
    feed-Ascending full 1 three (first_parser conf_defaults true) ends feed-three

parse_size-digits_example :
    parse_size (codes "12" ++ b'm' ∷ [])
    ≡ some (
        (if leb (2 ^ 64) (number_from 0 (codes "12"))
          then 2 ^ 64 - 1
          else number_from 0 (codes "12"))
        * 1000000
        % 2 ^ 64)
parse_size-digits_example =
    parse_size-digits b'1' (codes "2") (b'm' ∷ []) 1000000 (omega arith) million

-- A file that sets a buffer of 4 KiB and messages of 40000 bytes.
abbrev cramped : Conf
cramped = record conf_defaults { buffer_size = 4096; max_log_length = 40000 }

cramped-Sized : Sized true conf_defaults (codes "4kb") (codes "40000") cramped
unfolding parse_buffer_key parse_size strtoull scan_number skip_spaces digits suffix_factor
    parse_advanced strtol to_long clamp_long conf_defaults
cramped-Sized = refl

abbrev message : Msg
message = record {
  level = 2;
  rec_flags = 0;
  category = [];
  file = [];
  func = [];
  line = 0;
  tid = 1;
  realtime_ns = 0;
  mono_us = 0;
  msg = replicate 40000 104;
  fields_wire = [];
  field_count = 0;
}

message-IsFit : IsFit message
message-IsFit = record {
  level_fits = omega arith;
  ordinary = refl;
  category_fits = omega arith;
  file_fits = omega arith;
  func_fits = omega arith;
  line_fits = omega arith;
  tid_fits = omega arith;
  realtime_fits = omega arith;
  mono_fits = omega arith;
  count_fits = omega arith;
  no_wire = λ e. refl;
  size_fits = omega (arith, length-payload message, length-replicate {A = ℕ} 40000 104);
}

-- The ring of this size, closed, so that a put returns at once.
abbrev closed_ring : Ring
closed_ring = record {
  capacity = 4096;
  buf = λ a. 0;
  policy = discard;
  mode = 0;
  head = 0;
  tail = 0;
  dropped = 0;
  overwritten = 0;
  closed = true;
}

unraised_buffer_example : Dropped closed_ring dropped
unfolding parse_size strtoull scan_number skip_spaces digits suffix_factor strtol to_long
unraised_buffer_example =
    unraised_buffer true conf_defaults cramped (codes "4kb") (codes "40000") 4096 40000 closed_ring
      message 1 dropped (record closed_ring { dropped = 1 }) refl (omega arith) refl (omega arith)
      cramped-Sized (omega arith) (λ e. cc) message-IsFit (length-replicate {A = ℕ} 40000 104)
      (put-returned closed_ring message 0 dropped (record closed_ring { dropped = 1 })
        (round_closed closed_ring message refl))

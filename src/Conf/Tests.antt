-- ===== src/Conf/Tests.antt =====
-- src/conf/ini.c and src/conf/conf_model.c at concrete inputs.
use hpulogc.Prelude.{
  ℕ, ◌≡◌, ◌≢◌, refl, ap, true, false, get_or, List, [], ◌∷◌, ◌++◌, Option, none, some, Bool, arith,
  Bytes, codes, ℤ, pos,
}
use hpulogc.Ring.State.{Ring, Msg, wait}
use hpulogc.Ring.Records.{create}
use hpulogc.Ring.Traffic.{send, receive, run, IsFifo}
use hpulogc.Conf.Result.{ok}
use hpulogc.Conf.Model.{RuleDesc, Config, config_default, conf_defaults, max_record_size}
use hpulogc.Conf.Lexer.{
  cut_comment, trim_tail, strip_comment_and_trim, backslashes, line_body, at_start, parse_buffer,
  parse_file, process_line, buffer_lines, phys_line, join_line, deliver, but_last,
}
use hpulogc.Conf.Plain.{IsPlain, unlines, told_all, parse_buffer-unlines}
use hpulogc.Conf.Limits.{FitsLine, parse_terminates, process_line-FitsLine}
use hpulogc.Conf.Continued.{continues_in_text_only}
use hpulogc.Conf.Slashed.{slashed}
use hpulogc.Conf.FromCode.{conf_from_code, apply_routing, apply_buffer, apply_sinks, apply_advanced}
use hpulogc.Conf.Code.{raised, default_names, code_outputs, code_rules}
use hpulogc.Conf.Declared.{code_sinks}
use hpulogc.Conf.Sized.{IsWithin, accepted_conf-IsFifo}
use hpulogc.Conf.SinkRules.{NotFlat, sink_rule_refused}

-- A callback that notes the lines with their numbers, the last one first.
abbrev note : Bytes → ℕ → List (Bytes × ℕ) → ℤ × List (Bytes × ℕ)
note line n seen = (pos 0, (line, n) ∷ seen)

abbrev lines : List Bytes
lines = codes "a = 1 # one" ∷ codes "# none" ∷ [] ∷ codes "b = \"#\"" ∷ []

lines-AllPlain :
    IsPlain (codes "a = 1 # one")
    × IsPlain (codes "# none")
    × IsPlain []
    × IsPlain (codes "b = \"#\"")
unfolding cut_comment trim_tail backslashes
lines-AllPlain = (
  record { one_line = omega arith; short = omega arith; ends = refl },
  record { one_line = omega arith; short = omega arith; ends = refl },
  record { one_line = omega arith; short = omega arith; ends = refl },
  record { one_line = omega arith; short = omega arith; ends = refl },
)

parse_buffer-lines :
    parse_buffer note [] (unlines lines)
    ≡ some (at_start note ((codes "b = \"#\"", 4) ∷ (codes "a = 1", 1) ∷ []), pos 0)
unfolding parse_buffer buffer_lines phys_line process_line join_line line_body but_last deliver
    strip_comment_and_trim cut_comment trim_tail backslashes
parse_buffer-lines = refl

parse_buffer-unlines_example : parse_buffer note [] (unlines lines) ≡ told_all note lines 0 []
parse_buffer-unlines_example =
    let p = lines-AllPlain in parse_buffer-unlines note [] lines (p.0, (p.1, (p.2, (p.3, tt))))

-- A file system in which every path is the file "x\\", newline, "y".
abbrev anywhere : Bytes → Bool
anywhere path = true

abbrev two_lines : Bytes
two_lines = slashed (codes "x") ++ 10 ∷ codes "y"

abbrev same_file : Bytes → Option Bytes
same_file path = some two_lines

parse_terminates_example :
    (parse_buffer note [] two_lines ≢ none)
    × (parse_file note anywhere same_file [] (some (codes "conf")) ≢ none)
parse_terminates_example =
    parse_terminates note anywhere same_file [] two_lines (some (codes "conf"))

process_line-FitsLine_example :
    FitsLine note (process_line note (at_start note []) (codes "a = 1") 1 true).0
process_line-FitsLine_example =
    process_line-FitsLine note (at_start note []) (codes "a = 1") 1 true (omega arith)

continues_in_text_only_example :
    (parse_buffer note [] two_lines ≡ told_all note (codes "xy" ∷ []) 0 [])
    × (parse_file note anywhere same_file [] (some (codes "conf"))
        ≡ told_all note (slashed (codes "x") ∷ codes "y" ∷ []) 0 [])
continues_in_text_only_example =
    continues_in_text_only note anywhere same_file (codes "conf") [] b'x' b'y' [] [] (omega arith)
      (omega arith) (omega arith) (omega arith) refl refl

default_accepted : conf_from_code (λ i s. s) conf_defaults (some config_default) ≡ ok conf_defaults
unfolding conf_from_code apply_routing apply_buffer apply_sinks apply_advanced conf_defaults
    config_default raised max_record_size default_names code_outputs code_rules code_sinks
default_accepted = refl

abbrev small : Msg
small = record {
  level = 2;
  rec_flags = 0;
  category = codes "db";
  file = [];
  func = [];
  line = 7;
  tid = 1;
  realtime_ns = 5;
  mono_us = 5;
  msg = codes "hi";
  fields_wire = [];
  field_count = 0;
}

small-IsWithin : IsWithin conf_defaults small
unfolding conf_defaults
small-IsWithin = record {
  fit = record {
    level_fits = omega arith;
    ordinary = refl;
    category_fits = omega arith;
    file_fits = omega arith;
    func_fits = omega arith;
    line_fits = omega arith;
    tid_fits = omega arith;
    realtime_fits = omega arith;
    mono_fits = omega arith;
    count_fits = omega arith;
    no_wire = λ e. refl;
    size_fits = omega arith;
  };
  msg = omega arith;
  fields = omega arith;
  texts = omega arith;
}

abbrev new_ring : Ring
new_ring = record {
  capacity = 1048576;
  buf = λ a. 0;
  policy = wait;
  mode = 1;
  head = 0;
  tail = 0;
  dropped = 0;
  overwritten = 0;
  closed = false;
}

accepted_conf-IsFifo_example : IsFifo [] (run 1048600 (send small ∷ receive 4096 ∷ []) new_ring)
unfolding create conf_defaults
accepted_conf-IsFifo_example =
    accepted_conf-IsFifo (λ i s. s) (some config_default) conf_defaults wait 1 (λ a. 0) new_ring
      1048600 (send small ∷ receive 4096 ∷ []) default_accepted refl (λ e. cc) (small-IsWithin, tt)
      (omega arith)

-- A sink named "net", and a rule that sends to it.
abbrev net : Bytes
net = codes "net"

abbrev to_net : RuleDesc
to_net = record {
  category = none;
  min_level = pos 0;
  max_level = pos 5;
  format = some (codes "json");
  outputs = some net ∷ [];
}

abbrev with_net : Config
with_net = record config_default {
  rules = to_net ∷ [];
  sinks = record { name = some net; type = some (codes "null"); pairs = [] } ∷ [];
}

net-NotFlat : NotFlat net
net-NotFlat i e = omega (arith, ap (λ (s : Bytes). get_or s 0 0) e)

sink_rule_refused_example :
    conf_from_code (λ i s. s) conf_defaults (some with_net) ≢ ok conf_defaults
sink_rule_refused_example =
    sink_rule_refused (λ i s. s) net with_net [] to_net [] conf_defaults net-NotFlat refl
      (record { before = []; after = []; among = refl })

-- ===== src/Ring/Tests.antt =====
-- src/ring/ringbuf_locked.c at concrete inputs.
use hpulogc.Prelude.{◌≤◌, ◌≡◌, refl, false, List, [], ◌∷◌, arith}
use hpulogc.Memory.{Mem}
use hpulogc.Ring.State.{Policy, wait, Msg, Ring}
use hpulogc.Ring.Records.{record_len, create}
use hpulogc.Ring.Calls.{put, get_now}
use hpulogc.Ring.Views.{IsFit}
use hpulogc.Ring.Layout.{IsValid, create-IsValid}
use hpulogc.Ring.Put.{put-PutLeaves}
use hpulogc.Ring.Outcomes.{PutLeaves}
use hpulogc.Ring.Get.{GetLeaves, get_now-GetLeaves}
use hpulogc.Ring.Traffic.{Op, send, receive, run, IsFifo, run-IsFifo}

abbrev zeros : Mem
zeros = λ a. 0

abbrev fresh : Policy → Ring
fresh policy = record {
  capacity = 256;
  buf = zeros;
  policy = policy;
  mode = 0;
  head = 0;
  tail = 0;
  dropped = 0;
  overwritten = 0;
  closed = false;
}

-- "hi" of the category "a"
abbrev hi : Msg
hi = record {
  level = 2;
  rec_flags = 0;
  category = 97 ∷ [];
  file = [];
  func = [];
  line = 7;
  tid = 11;
  realtime_ns = 1000;
  mono_us = 1;
  msg = 104 ∷ 105 ∷ [];
  fields_wire = [];
  field_count = 0;
}

fresh-IsValid : (policy : Policy) → IsValid (fresh policy) []
fresh-IsValid policy = record {
  cap_min = omega arith;
  cap_max = omega arith;
  head-le-tail = omega arith;
  within = omega arith;
  room_for_pad = omega arith;
  tiles = refl;
}

hi-IsFit : IsFit hi
hi-IsFit = record {
  level_fits = omega arith;
  ordinary = refl;
  category_fits = omega arith;
  file_fits = omega arith;
  func_fits = omega arith;
  line_fits = omega arith;
  tid_fits = omega arith;
  realtime_fits = omega arith;
  mono_fits = omega arith;
  count_fits = omega arith;
  no_wire = λ e. refl;
  size_fits = omega arith;
}

record_len-hi : record_len hi ≡ 64
unfolding record_len
record_len-hi = refl

abbrev script : List Op
script = send hi ∷ send hi ∷ receive 0 ∷ []

create-IsValid_example : IsValid (fresh wait) [] × (250 ≤ 256)
unfolding create
create-IsValid_example = create-IsValid 250 wait 0 zeros (omega arith) refl

put-PutLeaves_example : PutLeaves (fresh wait) [] hi (put 4 (fresh wait) hi)
put-PutLeaves_example =
    put-PutLeaves (fresh wait) [] hi (fresh-IsValid wait) hi-IsFit (rw record_len-hi (omega arith))

get_now-GetLeaves_example : GetLeaves (fresh wait) [] 5 (get_now 1 (fresh wait) 0 5)
get_now-GetLeaves_example =
    get_now-GetLeaves 1 (fresh wait) [] 0 5 (omega arith) (fresh-IsValid wait)

run-IsFifo_example : IsFifo [] (run 257 script (fresh wait))
run-IsFifo_example =
    run-IsFifo 257 script (fresh wait) [] (fresh-IsValid wait)
      ((hi-IsFit, rw record_len-hi (omega arith)), ((hi-IsFit, rw record_len-hi (omega arith)), tt))
      (λ e. cc) (omega arith)

-- ===== src/Lib.antt =====
-- hpulogc: a logging library in C. A record goes from the producer's call through a ring buffer to the
-- consumer thread, which routes it, renders it and hands it to the sinks; a sink may have a byte
-- queue and a worker thread of its own.
--
-- Prelude: lists, texts and integers that the parts share. Memory: bytes at addresses, stores and
--   loads, and the little-endian words of a structure.
-- Ring: src/ring/ringbuf_locked.c and src/ring/ringbuf.h. State has the structures, Records the
--   record and padding layout (`write_record`, `write_pad`, `read_record`), Calls the entry points
--   (`hpu_ring_put`, `hpu_ring_get`, `hpu_ring_close`). A call is one critical section, so a
--   function from the state to the state; a wait on a condition variable is an outcome of its own,
--   and the state that the wait ends in is an argument. The cursors are the unbounded monotonic
--   counters of the code. Views, Layout, Evict, Writes, Put, Outcomes, Same, Get and Traffic prove.
--   Fuel: `put` has four rounds, which are enough; the overwrite loop has as many as bytes in use;
--   `get_now` has more than the capacity, and every item takes a byte at least.
-- Fields: src/format/format.c (`hpu_fields_serialize`, `hpu_fields_unpack`) and
--   src/output/output.c (`hpu_output_filter_apply`, `parse_filter_keys`). Wire has the region,
--   Serialize the encoder, Filter the filter, Keys the parser of its keys; Added, Loop, Reads,
--   RoundTrip, Kept, Filtered and Listed prove. A key or a text that `hpu_fields_unpack` hands out is
--   an address, the distance from the start of the region. The padding loops have 8 rounds, one
--   more than they take.
-- Conf: src/conf/ini.c, src/conf/conf_file.c and src/conf/conf_model.c. Lexer has the lines of a
--   text or a file, with the callback as a function on its context; Values, Global, Lines and
--   RuleLine have the keys of the sections, File the callback and `hpu_conf_load_file`. Model has
--   the structures of src/conf/conf_model.h and include/hpulogc.h with their defaults, Declared,
--   Code and FromCode `hpu_conf_from_code`. The file system, the compiler of templates and the
--   registry of sink types are arguments, and so is what a text in the old array of
--   outputs reads as once `realloc` has moved the array. Paths has `hpu_path_normalize` of
--   src/platform/posix/posix_path.c, Finalize the checks of `hpu_conf_finalize`, Open what it opens
--   and closes, Reload `hpu_conf_finalize_reload` and the move of handles, Trigger
--   `hpu_core_trigger_reload` of src/core/hotreload.c; opening a sink is an argument, and so are the
--   looks of a reload that waits for its turn. Strip, Plain, Limits, Words, Slashed and Continued
--   prove on the lexer; Accepted to SinkRules on a configuration from code; Planned, Validated,
--   Taken, Moved, Handles, Balanced and Swapped on the finalization and the reload; Limited, the Loaded
--   modules, Follows, Order, Unraised and Sizes on one from a file. Fuel: a text has one more than
--   bytes, and every line takes one at least.
-- Queue: src/output/sink_queue.c. State has the packed record, Push the producer's side, Worker
--   the worker's, Scratch the buffer that the worker filters into, which the events of a batch share,
--   with the C library's choices as an argument; Records, Stream, Handed, Collected, Drained, Layout,
--   Pushed, Sweep and Traffic prove, and Boundary has what becomes of a push near the end of the buffer and of a worker that is stopped, Long of a
--   message of the greatest length. The loops over a sweep have as much fuel as it has bytes, and
--   every round passes 4 at least.
-- Routing: src/core/registry.c and the routing of src/core/pipeline.c with the rule tests of
--   src/conf/conf_model.c.
-- Rotate: src/output/rotate.c. Boundary has `hpu_rotate_next_boundary` in UTC with its two date
--   conversions, from the epoch on; Next, Civil, MarchDate and Month prove.
--
-- Not modelled: threads, mutexes and condition variables, which the calls take as atomic sections;
-- allocation failure where a definition does not name it; src/ring/ringbuf_lockfree.c, whose steps
-- interleave; the platform layer but for its paths, the sinks' system calls and the renderer.
pub mod Prelude
pub mod Memory
pub mod Ring
pub mod Fields
pub mod Conf
pub mod Queue
pub mod Routing
pub mod Rotate

-- ===== src/Conf/SinkBounds.antt =====
-- src/conf/conf_model.c: the sinks that `hpu_conf_from_code` makes of declarations.
use mathlib.Core.Path.{subst}
use mathlib.Core.Option.{some-injective}
use hpulogc.Prelude.{
  ℕ, suc, ◌+◌, ◌≤◌, ◌<◌, ◌≡◌, refl, ap, inl, inr, Bool, true, List, [], ◌∷◌, ◌++◌, Option, none,
  some, leb, ltb, arith, Bool-cases, length, length-append, Bytes, codes, same, ℤ,
}
use hpulogc.Conf.Result.{
  or_fail, err_invalid_arg, Ensures, ensured, failing, Ensures-bind, Ensures-or_fail, Ensures-guard,
}
use hpulogc.Conf.Model.{max_path_len, max_fmt_len, max_sink_kv, sink_kv_pool, SinkDecl, ConfOutput}
use hpulogc.Conf.Declared.{
  parse_size_str, named, store_pair, sink_pair, sink_pairs, code_sink, code_sinks, generic_output,
}
use hpulogc.Conf.Accepted.{All, IsName, pool_bytes, IsOutput, named-IsName}

pool_bytes-append :
    (kvs : List (Bytes × Bytes)) (k v : Bytes)
    → pool_bytes (kvs ++ (k, v) ∷ []) ≡ pool_bytes kvs + length k + length v + 2
pool_bytes-append [] k v = omega arith
pool_bytes-append ((a, b) ∷ kvs) k v = omega (arith, pool_bytes-append kvs k v)

-- The bounds that hold while the pairs of a sink are stored, with `n` pairs left.
record IsSink (n : ℕ) (o : ConfOutput) : Type 0 where
  name : IsName o.name_buf
  type_fits : IsName o.type_name
  path : length o.path_buf < max_path_len
  naming : length o.naming_buf < max_fmt_len
  pairs : length o.kvs + n ≤ max_sink_kv
  pool : o.kv_pool_len ≡ pool_bytes o.kvs
  pool_fits : o.kv_pool_len ≤ sink_kv_pool

store_pair-IsSink :
    (n : ℕ) (o o' : ConfOutput) (key val : Bytes)
    → IsSink (suc n) o
    → store_pair o key val ≡ some o'
    → IsSink n o'
unfolding store_pair
store_pair-IsSink n o o' key val s h =
    let full : Bool = ltb sink_kv_pool (o.kv_pool_len + length key + length val + 2) in
    elim (Bool-cases full) [
      | inl e ↦ let h' = rw e at h in cc
      | inr e ↦
          let h' = rw e at h in
          subst (IsSink n) (some-injective _ _ h') (record {
            name = s.name;
            type_fits = s.type_fits;
            path = s.path;
            naming = s.naming;
            pairs = omega (arith, s.pairs, length-append o.kvs ((key, val) ∷ []));
            pool = omega (arith, s.pool, pool_bytes-append o.kvs key val);
            pool_fits = ground (arith, e);
          })
    ]

IsSink-IsOutput : (o : ConfOutput) → IsSink 0 o → IsOutput o
IsSink-IsOutput o s = record {
  name = s.name;
  type_fits = s.type_fits;
  path = s.path;
  naming = s.naming;
  pairs = omega (arith, s.pairs);
  pool = s.pool;
  pool_fits = s.pool_fits;
}

generic_output-IsSink :
    (n : ℕ) (name type : Bytes)
    → IsName name
    → IsName type
    → leb n max_sink_kv ≡ true
    → IsSink n (generic_output name type)
generic_output-IsSink n name type p q h = record {
  name = p;
  type_fits = q;
  path = omega arith;
  naming = omega arith;
  pairs = ground arith;
  pool = refl;
  pool_fits = omega arith;
}

-- A common key leaves the pairs.
common_key :
    (n : ℕ) (o : ConfOutput) (enabled async : Bool) (size : ℕ)
    → IsSink (suc n) o
    → IsSink n (record o { enabled = enabled; async = async; queue_size = size })
common_key n o enabled async size s = record {
  name = s.name;
  type_fits = s.type_fits;
  path = s.path;
  naming = s.naming;
  pairs = omega (arith, s.pairs);
  pool = s.pool;
  pool_fits = s.pool_fits;
}

pub stored :
    {A : Type 0} {P : A → Type 0} (r : Option A) (e : ℤ)
    → ((a : A) → r ≡ some a → P a)
    → Ensures P (or_fail r e)
stored none e h = failing e
stored (some a) e h = ensured a (h a refl)

sink_pair-IsSink :
    (n : ℕ) (o : ConfOutput) (key val : Bytes)
    → IsSink (suc n) o
    → Ensures (IsSink n) (sink_pair o key val)
unfolding sink_pair
sink_pair-IsSink n o key val s = elim (Bool-cases (same key (codes "enabled"))) [
  | inl e ↦ rw e (ensured _ (common_key n o _ o.async o.queue_size s))
  | inr e ↦ elim (Bool-cases (same key (codes "async"))) [
    | inl e' ↦ rw (e, e') (ensured _ (common_key n o o.enabled _ o.queue_size s))
    | inr e' ↦ elim (Bool-cases (same key (codes "queue size"))) [
      | inl e'' ↦
          rw (e, e', e'')
            (Ensures-or_fail (parse_size_str val) err_invalid_arg
              λ size p. ensured _ (common_key n o o.enabled o.async size s))
      | inr e'' ↦
          rw (e, e', e'')
            (stored (store_pair o key val) err_invalid_arg
              (λ o' h. store_pair-IsSink n o o' key val s h))
    ]
  ]
]

sink_pairs-IsOutput :
    (o : ConfOutput) (kvs : List (Option Bytes × Option Bytes))
    → IsSink (length kvs) o
    → Ensures IsOutput (sink_pairs o kvs)
unfolding sink_pairs
sink_pairs-IsOutput o [] s = ensured o (IsSink-IsOutput o s)
sink_pairs-IsOutput o ((k, v) ∷ kvs) s = Ensures-or_fail k err_invalid_arg λ key e.
    Ensures-or_fail v err_invalid_arg λ val e'.
      Ensures-bind (sink_pair-IsSink (length kvs) o key val s)
        λ o' s'. sink_pairs-IsOutput o' kvs s'

code_sink-IsOutput : (d : SinkDecl) → Ensures IsOutput (code_sink d)
unfolding code_sink
code_sink-IsOutput d = Ensures-or_fail (named d.name) err_invalid_arg λ name n.
    Ensures-or_fail (named d.type) err_invalid_arg λ type t.
      Ensures-guard _ err_invalid_arg λ count.
        sink_pairs-IsOutput (generic_output name type) d.pairs (
          generic_output-IsSink (length d.pairs) name type (named-IsName d.name name n)
            (named-IsName d.type type t) count)

pub code_sinks-IsOutput :
    (ds : List SinkDecl)
    → Ensures (λ outs. (length outs ≡ length ds) × All IsOutput outs) (code_sinks ds)
unfolding code_sinks
code_sinks-IsOutput [] = ensured [] (refl, tt)
code_sinks-IsOutput (d ∷ ds) = Ensures-bind (code_sink-IsOutput d) λ out p.
    Ensures-bind (code_sinks-IsOutput ds) λ outs h. ensured (out ∷ outs) (ap suc h.0, (p, h.1))

-- A pair more, where there are fewer than 32.
pub store_pair-IsOutput :
    (o o' : ConfOutput) (key val : Bytes)
    → IsOutput o
    → length o.kvs < max_sink_kv
    → store_pair o key val ≡ some o'
    → IsOutput o'
store_pair-IsOutput o o' key val v room h = IsSink-IsOutput o' (
    store_pair-IsSink 0 o o' key val
      (record {
        name = v.name;
        type_fits = v.type_fits;
        path = v.path;
        naming = v.naming;
        pairs = omega arith;
        pool = v.pool;
        pool_fits = v.pool_fits;
      })
      h)

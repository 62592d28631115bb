-- ===== src/Bundled/Methods/RoundTrip.antt =====
-- What `amqp_encode_method` wrote, `amqp_decode_method` reads back.
use pg_amqp.Base.{
  ℕ, ◌+◌, length, ◌^◌, ◌≤◌, ◌<◌, ◌≡◌, ◌≢◌, inl, inr, refl, ap, sym, true, present, Option, none,
  some, List, arith,
}
use mathlib.Core.Path.{subst, subst⁻¹, subst_refl, path_j}
use pg_amqp.Bundled.Buffer.{Memory}
use pg_amqp.Bundled.Pool
use pg_amqp.Bundled.Pool.{State, Region, amqp_pool_alloc}
use pg_amqp.Bundled.Pool.Filled.{Filled, amqp_pool_alloc-Filled}
use pg_amqp.Bundled.Encoder.{Spot, encoded}
use pg_amqp.Bundled.Encoder.Stored.{Stored, Holds}
use pg_amqp.Bundled.Reader.{got, amqp_bytes}
use pg_amqp.Bundled.Reader.Gives.{at, Gives, Gives-bind}
use pg_amqp.Bundled.Table.ReadBack.{Plenty}
use pg_amqp.Bundled.Fields.{Item, Layouts, Args, case_of, decode_fields}
use pg_amqp.Bundled.Fields.Wire.{known_fields, wire_fields, encode_fields-Stored}
use pg_amqp.Bundled.Fields.ReadBack.{AllFit, decode_fields-Gives}
use pg_amqp.Bundled.Methods.{
  StructOf, encode_layouts, encode_case, amqp_encode_method, alloc_struct, decode_case,
  amqp_decode_method,
}
use pg_amqp.Bundled.Methods.Agree.{same_layouts}

-- Each member fits its field.
abbrev pub FitsCase : (o : Option (List Item)) → StructOf o → Type 0
FitsCase none _ = Unit
FitsCase (some is) m = AllFit is m

module _ (mem : Pool.Memory) (plenty : Plenty mem) (sizeof : ℕ → ℕ) where
  present-some :
      (size : ℕ) → size ≢ 0 → (r : Option Region × State) → Filled mem size r → present r.0 ≡ true
  present-some size sized (none, h) (inl z) = absurd (sized z)
  present-some size sized (none, h) (inr (cs, k, out)) = let p = plenty cs k in absurd (cc)
  present-some size sized (some r, h) f = refl

  pub alloc_struct-Gives :
      (m : Memory) (len size o : ℕ) (h : State)
      → size ≢ 0
      → Gives true o (alloc_struct mem sizeof (amqp_bytes m len) size (at o h))
  unfolding alloc_struct
  alloc_struct-Gives m len size o h sized =
      let p = present-some size sized _ (amqp_pool_alloc-Filled mem size h) in
      ((amqp_pool_alloc mem size h).1, ap (λ b. got b (at o (amqp_pool_alloc mem size h).1)) p)

  -- The struct of a case whose bytes stand in the buffer.
  pub decode_case-Gives :
      (m : Memory) (len n : ℕ) (is : List Item) (x : Args is) (o : ℕ) (h : State)
      → sizeof n ≢ 0
      → len < 2 ^ 31
      → AllFit is x
      → Holds m o (wire_fields is x)
      → o + length (wire_fields is x) ≤ len
      → Gives x
          (o + length (wire_fields is x))
          (decode_case mem sizeof (amqp_bytes m len) n (some is) (at o h))
  unfolding decode_case
  decode_case-Gives m len n is x o h sized small fit held room =
      Gives-bind true x o (o + length (wire_fields is x)) _
        (λ there. decode_fields mem (amqp_bytes m len) there is)
        (alloc_struct-Gives m len (sizeof n) o h sized)
        λ g. decode_fields-Gives mem plenty m len small is x o g fit held room

  case-RoundTrip :
      (len n : ℕ) (c : Option (List Item)) (x : StructOf c) (s s' : Spot) (h : State)
      → sizeof n ≢ 0
      → len < 2 ^ 31
      → s.offset ≤ len
      → FitsCase c x
      → encode_case len c x s ≡ encoded s'
      → Gives x s'.offset (decode_case mem sizeof (amqp_bytes s'.memory len) n c (at s.offset h))
  unfolding encode_case Stored
  case-RoundTrip len n none x s s' h sized small room fit e = absurd (cc)
  case-RoundTrip len n (some is) x s s' h sized small room fit e =
      let (known, moved, fits, written, io, after) =
        subst (Stored len s (known_fields is x) (wire_fields is x)) e
          (encode_fields-Stored len is x s) in
      subst
        (λ o.
          Gives x o (decode_case mem sizeof (amqp_bytes s'.memory len) n (some is) (at s.offset h)))
        (sym moved)
        (decode_case-Gives s'.memory len n is x s.offset h sized small fit written (ground arith))

-- With allocations that succeed, structs of some size, a buffer below 2 ^ 31 bytes and members that fit
-- their fields, what `amqp_encode_method` wrote for the struct of any method is decoded as that struct
-- by `amqp_decode_method`, which ends where the encoder ended.
pub amqp_decode_method-amqp_encode_method :
    (mem : Pool.Memory) (sizeof : ℕ → ℕ) (len n : ℕ) (x : StructOf (case_of n encode_layouts))
    (buffer : Memory) (s : Spot) (h : State)
    → Plenty mem
    → sizeof n ≢ 0
    → len < 2 ^ 31
    → FitsCase (case_of n encode_layouts) x
    → amqp_encode_method len n x buffer ≡ encoded s
    → Gives
        (subst (λ ls. StructOf (case_of n ls)) same_layouts x)
        s.offset
        (amqp_decode_method mem sizeof (amqp_bytes s.memory len) n h)
unfolding amqp_encode_method amqp_decode_method
amqp_decode_method-amqp_encode_method mem sizeof len n x buffer s h plenty sized small fit e =
    let b = amqp_bytes s.memory len in
    let StructIn : Layouts → Type 0 = λ ls. StructOf (case_of n ls) in
    path_j
      (λ ls same.
        Gives (subst StructIn same x) s.offset (decode_case mem sizeof b n (case_of n ls) (at 0 h)))
      (subst⁻¹
        (λ y. Gives y s.offset (decode_case mem sizeof b n (case_of n encode_layouts) (at 0 h)))
        (subst_refl StructIn {x = encode_layouts} x)
        (case-RoundTrip mem plenty sizeof len n (case_of n encode_layouts) x _ s h sized small
          (omega arith) fit e))
      same_layouts

-- ===== src/Session/Brokers.antt =====
-- The list of brokers of a backend: what looking up, storing and looping over it keep.
use pg_amqp.Base.{ℕ, ◌≡◌, ◌∙◌, refl, none, List, [], ◌∷◌, arith, All}
use pg_amqp.Events.{Trace}
use pg_amqp.Broker.{BrokerState, Ctx}
use pg_amqp.Broker.Invariant.{IsWf}
use pg_amqp.Readings.{faults}
use pg_amqp.Xact.{each}
use pg_amqp.Session.{Session, find, ensure, get_a_bs, store, at, each_broker}

-- No id occurs twice.
abbrev pub Distinct : List BrokerState → Type 0
Distinct [] = Unit
Distinct (b ∷ bs) = (find b.broker_id bs ≡ none) × Distinct bs

pub record Sound (s : Session) : Type 0 where
  pub all_wf : All IsWf s.brokers
  pub distinct : Distinct s.brokers
  pub no_fault : faults s.trace ≡ 0

-- What a function on one broker has to keep.
pub record Safe (c c' : Ctx) : Type 0 where
  pub wf : IsWf c'.bs
  pub same_id : c'.bs.broker_id ≡ c.bs.broker_id
  pub same_faults : faults c'.trace ≡ faults c.trace

abbrev pub IsSafe : (Ctx → Ctx) → Type 0
IsSafe f = (c : Ctx) → IsWf c.bs → Safe c (f c)

-- A found state has the id, and is in order where all are.
find-IsWf :
    (id : ℕ) (bs : List BrokerState)
    → All IsWf bs
    → IsWf (get_a_bs id bs) × ((get_a_bs id bs).broker_id ≡ id)
unfolding get_a_bs find
find-IsWf id [] h = ground arith
find-IsWf id (b ∷ bs) h = ground (arith, find-IsWf id bs h.1)

ensure-IsWf :
    (id : ℕ) (bs : List BrokerState)
    → All IsWf bs
    → Distinct bs
    → All IsWf (ensure id bs) × Distinct (ensure id bs)
unfolding ensure
ensure-IsWf id bs h d = ground arith

store-IsWf :
    (id : ℕ) (b : BrokerState) (bs : List BrokerState)
    → IsWf b
    → All IsWf bs
    → All IsWf (store id b bs)
unfolding store
store-IsWf id b [] v h = tt
store-IsWf id b (x ∷ xs) v h = ground (arith, store-IsWf id b xs v h.1)

-- A store under its own id hides and reveals nothing.
find-store :
    (id j : ℕ) (b : BrokerState) (bs : List BrokerState)
    → b.broker_id ≡ id
    → find j bs ≡ none
    → find j (store id b bs) ≡ none
unfolding find store
find-store id j b [] e h = refl
find-store id j b (x ∷ xs) e h = ground (arith, find-store id j b xs e)

store-Distinct :
    (id : ℕ) (b : BrokerState) (bs : List BrokerState)
    → b.broker_id ≡ id
    → Distinct bs
    → Distinct (store id b bs)
unfolding store
store-Distinct id b [] e d = tt
store-Distinct id b (x ∷ xs) e d =
    ground (arith, store-Distinct id b xs e d.1, find-store id x.broker_id b xs e)

pub at-Sound :
    {A : Type 0} (id : ℕ) (f : Ctx → A × Ctx) (s : Session)
    → IsSafe (λ c. (f c).1)
    → Sound s
    → Sound (at id f s).1
unfolding at
at-Sound id f s safe v =
    let c : Ctx = record { bs = get_a_bs id s.brokers; trace = s.trace } in
    let stored = (f c).1.bs in
    let kept = find-IsWf id s.brokers v.all_wf in
    let result = safe c kept.0 in
    let ready = ensure-IsWf id s.brokers v.all_wf v.distinct in
    record {
      all_wf = store-IsWf id stored (ensure id s.brokers) result.wf ready.0;
      distinct = store-Distinct id stored (ensure id s.brokers) (result.same_id ∙ kept.1) ready.1;
      no_fault = result.same_faults ∙ v.no_fault;
    }

module _ (f : Ctx → Ctx) (safe : IsSafe f) where
  each-IsWf :
      (bs : List BrokerState) (t : Trace)
      → All IsWf bs
      → All IsWf (each f bs t).0 × (faults (each f bs t).1 ≡ faults t)
  unfolding each
  each-IsWf [] t h = (tt, refl)
  each-IsWf (b ∷ bs) t h =
      let c : Ctx = record { bs = b; trace = t } in
      ground (arith, safe c h.0, each-IsWf bs (f c).trace h.1)

  find-each :
      (j : ℕ) (bs : List BrokerState) (t : Trace)
      → All IsWf bs
      → find j bs ≡ none
      → find j (each f bs t).0 ≡ none
  unfolding each find
  find-each j [] t h e = refl
  find-each j (b ∷ bs) t h e =
      let c : Ctx = record { bs = b; trace = t } in
      ground (arith, safe c h.0, find-each j bs (f c).trace h.1)

  each-Distinct :
      (bs : List BrokerState) (t : Trace) → All IsWf bs → Distinct bs → Distinct (each f bs t).0
  unfolding each
  each-Distinct [] t h d = tt
  each-Distinct (b ∷ bs) t h d =
      let c : Ctx = record { bs = b; trace = t } in
      ground (
        arith,
        safe c h.0,
        each-Distinct bs (f c).trace h.1 d.1,
        find-each b.broker_id bs (f c).trace h.1 d.0,
      )

  pub each_broker-Sound : (s : Session) → Sound s → Sound (each_broker f s)
  unfolding each_broker
  each_broker-Sound s v = record {
    all_wf = (each-IsWf s.brokers s.trace v.all_wf).0;
    distinct = each-Distinct s.brokers s.trace v.all_wf v.distinct;
    no_fault = (each-IsWf s.brokers s.trace v.all_wf).1 ∙ v.no_fault;
  }

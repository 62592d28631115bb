-- ===== src/Bundled/Tls/Secured.antt =====
-- What a TLS handshake leaves: OpenSSL's objects, and the checks that a success implies.
use pg_amqp.Base.{
  ℕ, ◌+◌, ◌-◌, ◌≡◌, ◌⊎◌, Bool, true, false, Option, none, some, [], ◌∷◌, if◌then◌else◌,
}
use pg_amqp.Events.{Bytes}
use pg_amqp.Bundled.Tls.{
  TlsCalls, ctx_new, set_min_tls12, ctx_free, set_verify, ssl_new, connect, ssl_free, set_host, Ssl,
  TlsArgs,
}

-- The contexts and the SSL objects that were made and not freed.
abbrev pub held_contexts : TlsCalls → ℕ
held_contexts [] = 0
held_contexts ((ctx_new, true) ∷ cs) = held_contexts cs + 1
held_contexts ((ctx_free, _) ∷ cs) = held_contexts cs - 1
held_contexts (_ ∷ cs) = held_contexts cs

abbrev pub held_objects : TlsCalls → ℕ
held_objects [] = 0
held_objects ((ssl_new, true) ∷ cs) = held_objects cs + 1
held_objects ((ssl_free, _) ∷ cs) = held_objects cs - 1
held_objects (_ ∷ cs) = held_objects cs

-- What the calls since the last context and the last object asked of the peer.
abbrev pub peer_verified : TlsCalls → Bool
peer_verified [] = false
peer_verified ((set_verify b, _) ∷ cs) = b
peer_verified ((ctx_new, _) ∷ cs) = false
peer_verified (_ ∷ cs) = peer_verified cs

-- Whether TLS 1.2 was asked for as the lowest version, and with which result.
abbrev pub min_tls12 : TlsCalls → Option Bool
min_tls12 [] = none
min_tls12 ((set_min_tls12, ok) ∷ cs) = some ok
min_tls12 ((ctx_new, _) ∷ cs) = none
min_tls12 (_ ∷ cs) = min_tls12 cs

abbrev pub verified_host : TlsCalls → Option Bytes
verified_host [] = none
verified_host ((set_host h, true) ∷ cs) = some h
verified_host ((ssl_new, _) ∷ cs) = none
verified_host (_ ∷ cs) = verified_host cs

abbrev pub is_greeted : TlsCalls → Bool
is_greeted [] = false
is_greeted ((connect, b) ∷ cs) = b
is_greeted ((ssl_new, _) ∷ cs) = false
is_greeted (_ ∷ cs) = is_greeted cs

-- The name that the peer's certificate must have.
abbrev pub expected_host : TlsArgs → Option Bytes
expected_host a = if a.verify_peer then some a.hostname else none

-- Steps that make and free nothing and leave what is asked of the peer.
abbrev Plain : TlsCalls → TlsCalls → Type 0
Plain cs cs' =
    (held_contexts cs' ≡ held_contexts cs)
    × (held_objects cs' ≡ held_objects cs)
    × (peer_verified cs' ≡ peer_verified cs)
    × (min_tls12 cs' ≡ min_tls12 cs)

-- How a handshake ends: the contexts are those before; one SSL object is new where it succeeds, and
-- none where it fails. A success means that TLS 1.2 was asked for as the lowest version, with whatever
-- result, that the peer is verified where that is asked for, against the host's name, and that the
-- handshake was completed.
pub record Secured (ssl : Ssl) (a : TlsArgs) (cs : TlsCalls) (r : Bool × TlsCalls) : Type 0 where
  pub contexts : held_contexts r.1 ≡ held_contexts cs
  pub objects : held_objects r.1 ≡ held_objects cs + (if r.0 then 1 else 0)
  pub checks :
      (r.0 ≡ false)
      ⊎ ((min_tls12 r.1 ≡ some (ssl ((ctx_new, true) ∷ cs) set_min_tls12))
          × (peer_verified r.1 ≡ a.verify_peer)
          × (verified_host r.1 ≡ expected_host a)
          × (is_greeted r.1 ≡ true))

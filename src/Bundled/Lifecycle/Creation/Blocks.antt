-- ===== src/Bundled/Lifecycle/Creation/Blocks.antt =====
-- What becomes of the blocks of a connection.
use pg_amqp.Base.{
  if◌then◌else◌, ℕ, suc, ◌≡◌, refl, Bool, true, false, Option, none, some, [], ◌∷◌, chosen,
}
use pg_amqp.Bundled.Lifecycle.Creation.{
  Block, connection, outbound_buffer, sock_inbound_buffer, BlockCalls, claimed, refused, freed,
  pools_emptied, Parts, amqp_destroy_connection, with_sock_buffer, tuned_first, amqp_new_connection,
}

abbrev same_block : Block → Block → Bool
same_block connection connection = true
same_block outbound_buffer outbound_buffer = true
same_block sock_inbound_buffer sock_inbound_buffer = true
same_block _ _ = false

-- How often a block was claimed and freed.
abbrev pub claims : Block → BlockCalls → ℕ
claims b [] = 0
claims b (claimed c ∷ cs) = let n = claims b cs in if same_block b c then suc n else n
claims b (_ ∷ cs) = claims b cs

abbrev pub frees : Block → BlockCalls → ℕ
frees b [] = 0
frees b (freed c ∷ cs) = let n = frees b cs in if same_block b c then suc n else n
frees b (_ ∷ cs) = frees b cs

-- As many frees as claims.
abbrev pub Balanced : BlockCalls → Type 0
Balanced cs = (b : Block) → frees b cs ≡ claims b cs

-- By whether there was memory for the struct and for the outbound buffer.
abbrev pub Created : Bool → Bool → Option Parts × BlockCalls → Type 0
Created got room (some p, cs) =
    (got ≡ true)
    × (room ≡ true)
    × ((b : Block) → claims b cs ≡ 1)
    × ((b : Block) → frees b cs ≡ 0)
    × Balanced (amqp_destroy_connection p cs)
Created true false (none, cs) = (claims connection cs ≡ 1) × (frees connection cs ≡ 2)
Created true true (none, cs) = Balanced cs
Created false _ (none, cs) = Balanced cs

by_block :
    (P : Block → Type 0)
    → P connection
    → P outbound_buffer
    → P sock_inbound_buffer
    → (b : Block) → P b
by_block P c o s connection = c
by_block P c o s outbound_buffer = o
by_block P c o s sock_inbound_buffer = s

module _ (mem : BlockCalls → Block → Bool) where
  sock_buffer-Created :
      Created true true (with_sock_buffer mem (claimed outbound_buffer ∷ claimed connection ∷ []))
  unfolding with_sock_buffer amqp_destroy_connection
  sock_buffer-Created =
      chosen (Created true true)
        (mem (claimed outbound_buffer ∷ claimed connection ∷ []) sock_inbound_buffer) _ _
        (
          refl,
          refl,
          by_block _ refl refl refl,
          by_block _ refl refl refl,
          by_block _ refl refl refl,
        )
        (by_block _ refl refl refl)

  tuned-Created :
      Created true
        (mem (claimed connection ∷ []) outbound_buffer)
        (tuned_first mem (claimed connection ∷ []))
  unfolding tuned_first amqp_destroy_connection
  tuned-Created =
      elim (mem (claimed connection ∷ []) outbound_buffer)
        as (λ room. Created true room (
          if room
          then with_sock_buffer mem (claimed outbound_buffer ∷ claimed connection ∷ [])
          else (
            none,
            freed connection
                ∷ pools_emptied
                ∷ amqp_destroy_connection
                    (record { ssl = false; outbound = false; sock_inbound = false })
                    (refused outbound_buffer ∷ claimed connection ∷ []),
          ))) [ true ↦ sock_buffer-Created | false ↦ (refl, refl) ]

-- A connection that `amqp_new_connection` returns has the struct and both buffers, each claimed once and
-- not freed, and `amqp_destroy_connection` frees each once. Where it returns NULL each block that it
-- claimed was freed as often, except where the outbound buffer was refused: then the struct, claimed
-- once, was freed twice.
pub amqp_new_connection-Created :
    (mem : BlockCalls → Block → Bool)
    → Created
        (mem [] connection)
        (mem (claimed connection ∷ []) outbound_buffer)
        (amqp_new_connection mem [])
unfolding amqp_new_connection
amqp_new_connection-Created mem =
    let room = mem (claimed connection ∷ []) outbound_buffer in
    elim (mem [] connection)
      as (λ got. Created got room (
        if got
        then tuned_first mem (claimed connection ∷ [])
        else (none, refused connection ∷ []))) [ true ↦ tuned-Created mem | false ↦ (λ b. refl) ]

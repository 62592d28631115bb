-- ===== src/Bundled/Lifecycle/Creation.antt =====
-- src/librabbitmq/amqp_connection.c, `amqp_new_connection` and `amqp_destroy_connection`, by the blocks
-- of a connection that are no pages of its pools: the struct and its two buffers. The pools of a new
-- connection have no pages, so that emptying them frees nothing.
pub mod Blocks
use pg_amqp.Base.{Bool, true, false, Option, none, some, List, ◌∷◌, if◌then◌else◌}

pub data Block : Type 0 where
  connection outbound_buffer sock_inbound_buffer : Block

-- The calls of calloc, realloc, malloc, free and SSL_free, the latest first.
pub data BlockCall : Type 0 where
  claimed refused freed : Block → BlockCall
  ssl_freed pools_emptied : BlockCall

abbrev pub BlockCalls : Type 0
BlockCalls = List BlockCall

-- The pointers of a connection that are not NULL.
pub record Parts : Type 0 where
  pub ssl : Bool
  pub outbound : Bool
  pub sock_inbound : Bool

-- `free`, which does nothing for NULL.
abbrev pub free_block : Bool → Block → BlockCalls → BlockCalls
free_block there b cs = if there then freed b ∷ cs else cs

unfoldable pub amqp_destroy_connection : Parts → BlockCalls → BlockCalls
amqp_destroy_connection p cs =
    let unsecured = if p.ssl then ssl_freed ∷ cs else cs in
    let buffers =
      free_block p.sock_inbound sock_inbound_buffer
        (free_block p.outbound outbound_buffer (pools_emptied ∷ unsecured)) in
    freed connection ∷ buffers

-- Whether an allocation succeeds is a function of the calls before.
module _ (mem : BlockCalls → Block → Bool) where
  -- Behind `amqp_tune_connection`.
  unfoldable pub with_sock_buffer : BlockCalls → Option Parts × BlockCalls
  unfolding amqp_destroy_connection
  with_sock_buffer cs =
      if mem cs sock_inbound_buffer
      then (
        some (record { ssl = false; outbound = true; sock_inbound = true }),
        claimed sock_inbound_buffer ∷ cs,
      )
      else (
        none,
        amqp_destroy_connection (record { ssl = false; outbound = true; sock_inbound = false })
            (refused sock_inbound_buffer ∷ cs),
      )

  -- `amqp_tune_connection` of the new connection, which destroys it where it gets no buffer, and what
  -- `amqp_new_connection` does then.
  unfoldable pub tuned_first : BlockCalls → Option Parts × BlockCalls
  unfolding with_sock_buffer
  tuned_first cs =
      let destroyed =
        amqp_destroy_connection (record { ssl = false; outbound = false; sock_inbound = false })
          (refused outbound_buffer ∷ cs) in
      if mem cs outbound_buffer
      then with_sock_buffer (claimed outbound_buffer ∷ cs)
      else (none, freed connection ∷ pools_emptied ∷ destroyed)

  unfoldable pub amqp_new_connection : BlockCalls → Option Parts × BlockCalls
  unfolding tuned_first
  amqp_new_connection cs =
      if mem cs connection
      then tuned_first (claimed connection ∷ cs)
      else (none, refused connection ∷ cs)

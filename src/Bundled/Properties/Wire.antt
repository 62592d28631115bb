-- ===== src/Bundled/Properties/Wire.antt =====
-- The bytes of the properties whose flags are set, and what `encode_members` leaves.
use pg_amqp.Base.{ℕ, Bool, true, false, ◌&&◌, List, [], ◌∷◌, ◌++◌}
use pg_amqp.Events.{Bytes}
use pg_amqp.Bundled.Encoder.{Spot}
use pg_amqp.Bundled.Encoder.Stored.{Stored, then_encode-Stored, no_bytes-Stored}
use pg_amqp.Bundled.Fields.{Item}
use pg_amqp.Bundled.Fields.Wire.{wire_item, known_item, encode_item-Stored}
use pg_amqp.Bundled.Properties.{flag, Given, Members, encode_given, encode_members}

abbrev pub wire_given : (set : Bool) → (i : Item) → Given set i → Bytes
wire_given true i a = wire_item i a
wire_given false i _ = []

abbrev pub known_given : (set : Bool) → (i : Item) → Given set i → Bool
known_given true i a = known_item i a
known_given false i _ = true

abbrev pub wire_members : (flags : ℕ) → (ps : List (ℕ × Item)) → Members flags ps → Bytes
wire_members flags [] _ = []
wire_members flags ((k, i) ∷ ps) (a, more) =
    wire_given (flag k flags) i a ++ wire_members flags ps more

abbrev pub known_members : (flags : ℕ) → (ps : List (ℕ × Item)) → Members flags ps → Bool
known_members flags [] _ = true
known_members flags ((k, i) ∷ ps) (a, more) =
    known_given (flag k flags) i a && known_members flags ps more

encode_given-Stored :
    (len : ℕ) (set : Bool) (i : Item) (a : Given set i) (s : Spot)
    → Stored len s (known_given set i a) (wire_given set i a) (encode_given len set i a s)
unfolding encode_given
encode_given-Stored len true i a s = encode_item-Stored len i a s
encode_given-Stored len false i a s = no_bytes-Stored len s

pub encode_members-Stored :
    (len flags : ℕ) (ps : List (ℕ × Item)) (m : Members flags ps) (s : Spot)
    → Stored len s
        (known_members flags ps m)
        (wire_members flags ps m)
        (encode_members len flags ps m s)
unfolding encode_members
encode_members-Stored len flags [] m s = no_bytes-Stored len s
encode_members-Stored len flags ((k, i) ∷ ps) (a, more) s =
    then_encode-Stored len s (known_given (flag k flags) i a) (known_members flags ps more)
      (wire_given (flag k flags) i a) (wire_members flags ps more)
      (encode_given len (flag k flags) i a s) (encode_members len flags ps more)
      (encode_given-Stored len (flag k flags) i a s)
      (λ t. encode_members-Stored len flags ps more t)

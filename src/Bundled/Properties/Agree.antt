-- ===== src/Bundled/Properties/Agree.antt =====
-- The cases of `amqp_encode_properties` and `amqp_decode_properties` against the structs.
use pg_amqp.Base.{ℕ, ◌≡◌, refl, List, [], ◌∷◌}
use pg_amqp.Bundled.Fields.{Item, Member, PropertyLayouts, members}
use pg_amqp.Bundled.Properties.Decode.{decode_properties_layouts}
use pg_amqp.Bundled.Properties.Encode.{encode_properties_layouts}
use pg_amqp.Bundled.Properties.Structs.{properties_structs}

-- The same members under the same flags in the same order.
pub same_properties : encode_properties_layouts ≡ decode_properties_layouts
same_properties = refl

abbrev flagged : List (ℕ × Item) → List (ℕ × List Member)
flagged [] = []
flagged ((k, i) ∷ ps) = (k, members (i ∷ [])) ∷ flagged ps

abbrev singly : List (ℕ × Member) → List (ℕ × List Member)
singly [] = []
singly ((k, m) ∷ ms) = (k, m ∷ []) ∷ singly ms

abbrev all_flagged : PropertyLayouts → List (ℕ × List (ℕ × List Member))
all_flagged [] = []
all_flagged ((n, ps) ∷ ls) = (n, flagged ps) ∷ all_flagged ls

abbrev all_singly : List (ℕ × List (ℕ × Member)) → List (ℕ × List (ℕ × List Member))
all_singly [] = []
all_singly ((n, ms) ∷ ls) = (n, singly ms) ∷ all_singly ls

-- The members of the structs in order, each under the flag that the header defines for it.
flagged-properties : all_flagged encode_properties_layouts ≡ all_singly properties_structs
flagged-properties = refl

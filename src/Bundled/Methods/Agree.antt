-- ===== src/Bundled/Methods/Agree.antt =====
-- The cases of `amqp_encode_method`, `amqp_decode_method` and `amqp_method_name` against the structs.
use pg_amqp.Base.{
  ℕ, ◌≡◌, refl, ap, ◌∙◌, sym, Bool, true, false, present, List, [], ◌∷◌, ◌==◌, if◌then◌else◌, arith,
}
use mathlib.Core.Option
use pg_amqp.Bundled.Fields.{members, case_of, Layouts, Structs}
use pg_amqp.Bundled.Methods.{encode_layouts, decode_layouts, structs, amqp_method_name}
use pg_amqp.Bundled.Methods.Names.{method_names}

-- The same members, name by name, in the same order.
pub same_layouts : encode_layouts ≡ decode_layouts
same_layouts = refl

abbrev with_members : Layouts → Structs
with_members [] = []
with_members ((n, is) ∷ ls) = (n, members is) ∷ with_members ls

members-structs : with_members encode_layouts ≡ structs
members-structs = refl

abbrev numbers : {A : Type 0} → List (ℕ × A) → List ℕ
numbers [] = []
numbers ((n, a) ∷ rest) = n ∷ numbers rest

numbers-names : numbers method_names ≡ numbers decode_layouts
numbers-names = refl

-- Whether there is a case.
abbrev listed : ℕ → List ℕ → Bool
listed n [] = false
listed n (k ∷ ks) = if n == k then true else listed n ks

present-case_of :
    {A : Type 0} (n : ℕ) (xs : List (ℕ × A)) → present (case_of n xs) ≡ listed n (numbers xs)
present-case_of n [] = refl
present-case_of n ((k, a) ∷ xs) = let rest = present-case_of n xs in ground arith

case_of-members :
    (n : ℕ) (ls : Layouts) → Option.map members (case_of n ls) ≡ case_of n (with_members ls)
case_of-members n [] = refl
case_of-members n ((k, is) ∷ ls) = let rest = case_of-members n ls in ground arith

-- For every method number, the encoder and the decoder have the case of the same members, which are
-- those of the method's struct in order, with the width of their types; and a number has a name exactly
-- where it has a case.
pub amqp_methods-Agree :
    (n : ℕ)
    → (Option.map members (case_of n encode_layouts) ≡ case_of n structs)
      × (case_of n decode_layouts ≡ case_of n encode_layouts)
      × (present (amqp_method_name n) ≡ present (case_of n decode_layouts))
unfolding amqp_method_name
amqp_methods-Agree n = (
  case_of-members n encode_layouts ∙ ap (case_of n) members-structs,
  ap (case_of n) (sym same_layouts),
  present-case_of n method_names
      ∙ ap (listed n) numbers-names
      ∙ sym (present-case_of n decode_layouts),
)

-- ===== src/Fields/Groups.antt =====
-- `LastFixedField` on a line of groups, each in parentheses.
use arduino_dsmr.Base.{
  ℕ, zero, suc, ◌≤◌, List, [], ◌∷◌, ◌++◌, some, ◌≡◌, refl, ◌∙◌, arith, Bytes, length, Lacks,
  length-append,
}
use arduino_dsmr.ParseString.{parse_string}
use arduino_dsmr.ParseString.RoundTrip.{NoClose, parse_string-plain}
use arduino_dsmr.Fields.{Value, parse_fixed, last_group, parse_last}

-- A group as `LastFixedField` allows it: 1 to 20 bytes, with no ')'.
pub record IsGroup (s : Bytes) : Type 0 where
  pub no_close : Lacks b')' s
  pub at_least : 1 ≤ length s
  pub at_most : length s ≤ 20

abbrev pub AllGroups : List Bytes → Type 0
AllGroups [] = Unit {0}
AllGroups (s ∷ ss) = IsGroup s × AllGroups ss

abbrev pub group_text : Bytes → Bytes → Bytes
group_text s rest = b'(' ∷ (s ++ b')' ∷ rest)

-- Some groups, then the last one.
abbrev pub groups_text : List Bytes → Bytes → Bytes
groups_text [] last = group_text last []
groups_text (s ∷ ss) last = group_text s (groups_text ss last)

groups_text-NoClose : (ss : List Bytes) (last : Bytes) → NoClose (groups_text ss last)
groups_text-NoClose [] last = omega arith
groups_text-NoClose (s ∷ ss) last = omega arith

pub parse_group :
    (s rest : Bytes)
    → IsGroup s
    → NoClose rest
    → parse_string 1 20 (group_text s rest) ≡ some (s, rest)
parse_group s rest g n =
    parse_string-plain 1 20 s rest g.no_close n ∙ ground (arith, g.at_least, g.at_most)

last_group_step :
    (fuel : ℕ) (s rest last : Bytes)
    → IsGroup s
    → NoClose rest
    → last_group (suc fuel) last (group_text s rest) ≡ last_group fuel (group_text s rest) rest
unfolding last_group
last_group_step fuel s rest last g n = rw (parse_group s rest g n, last_group) refl

-- With fuel for each byte, the loop ends at the last group.
last_group-groups_text :
    (fuel : ℕ) (ss : List Bytes) (t last : Bytes)
    → AllGroups ss
    → IsGroup t
    → length (groups_text ss t) ≤ fuel
    → last_group fuel last (groups_text ss t) ≡ some (group_text t [])
unfolding last_group
last_group-groups_text zero [] t last gs g h = absurd (omega arith)
last_group-groups_text zero (s ∷ ss) t last gs g h = absurd (omega arith)
last_group-groups_text (suc fuel) [] t last gs g h = last_group_step fuel t [] last g tt ∙ done fuel
  where
    done : (n : ℕ) → last_group n (group_text t []) [] ≡ some (group_text t [])
    done zero = refl
    done (suc n) = refl
last_group-groups_text (suc fuel) (s ∷ ss) t last (g', gs) g h =
    last_group_step fuel s (groups_text ss t) last g' (groups_text-NoClose ss t)
    ∙ last_group-groups_text fuel ss t (group_text s (groups_text ss t)) gs g
        (omega (arith, length-append s (b')' ∷ groups_text ss t)))

-- `LastFixedField` reads a line of groups, each of 1 to 20 bytes with no ')', as `FixedField`
-- reads its last group alone.
pub parse_last-groups_text :
    (unit int_unit : Bytes) (ss : List Bytes) (t : Bytes) (val : Value)
    → AllGroups ss
    → IsGroup t
    → parse_last unit int_unit (groups_text ss t) val
      ≡ parse_fixed unit int_unit (group_text t []) val
unfolding parse_last
parse_last-groups_text unit int_unit ss t val gs g =
    let input = groups_text ss t in
    rw (last_group-groups_text (length input) ss t input gs g (omega arith), parse_last) refl

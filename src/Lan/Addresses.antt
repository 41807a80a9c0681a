-- ===== src/Lan/Addresses.antt =====
-- The dotted text of an IPv4 address and its number stand for each other.
use labkiosk.Shared.{
  ℕ, ◌+◌, ◌*◌, ◌/◌, ◌%◌, ◌^◌, ◌≤◌, ◌<◌, ◌≡◌, ◌∙◌, ◌↔◌, ◌≢◌, refl, sym, ap, Bool, true, false, not,
  ◌&&◌, Option, none, some, List, [], ◌∷◌, ◌++◌, ◌==◌, nat_eq, units_comparable, units_eq_iff,
  units_eq, includes_unit, if◌then◌else◌, arith,
}
use labkiosk.Shared.Tables.{holds_up_to, holds_at}
use labkiosk.Web.{split_on}
use labkiosk.Lan.{decimal, octet_text, octet, of_octets, of_parts, ipv4_number, join, ipv4_text}

-- Splitting at a mark and joining with it.
join_cons :
    (mark c : ℕ) (part : List ℕ) (parts : List (List ℕ))
    → join mark ((c ∷ part) ∷ parts) ≡ c ∷ join mark (part ∷ parts)
unfolding join
join_cons mark c part [] = refl
join_cons mark c part (next ∷ rest) = refl

-- A unit more in front.
join_step :
    (mark c : ℕ) (rest : List (List ℕ)) (cs : List ℕ)
    → join mark rest ≡ cs
    → rest ≢ []
    → join mark (
        if c == mark
        then [] ∷ rest
        else elim rest [ [] ↦ (c ∷ []) ∷ [] | part ∷ parts ↦ (c ∷ part) ∷ parts ])
      ≡ c ∷ cs
unfolding join
join_step mark c [] cs h k = absurd (k refl)
join_step mark c (part ∷ parts) cs h k = ground (arith, join_cons mark c part parts)

split_on-ne_nil : (mark : ℕ) (cs : List ℕ) → split_on mark cs ≢ []
unfolding split_on
split_on-ne_nil mark [] h = cc
split_on-ne_nil mark (c ∷ cs) h = ground (arith, split_on-ne_nil mark cs)

pub join-split_on : (mark : ℕ) (cs : List ℕ) → join mark (split_on mark cs) ≡ cs
unfolding join split_on
join-split_on mark [] = refl
join-split_on mark (c ∷ cs) =
    join_step mark c (split_on mark cs) cs (join-split_on mark cs) (split_on-ne_nil mark cs)

split_on-part :
    (mark : ℕ) (part rest : List ℕ)
    → includes_unit mark part ≡ false
    → split_on mark (part ++ mark ∷ rest) ≡ part ∷ split_on mark rest
unfolding split_on
split_on-part mark [] rest h = ground arith
split_on-part mark (c ∷ cs) rest h = let ih = split_on-part mark cs rest in ground arith

split_on-last :
    (mark : ℕ) (part : List ℕ) → includes_unit mark part ≡ false → split_on mark part ≡ part ∷ []
unfolding split_on
split_on-last mark [] h = refl
split_on-last mark (c ∷ cs) h = ground (arith, split_on-last mark cs)

octet_lem : (part : List ℕ) (n : ℕ) → octet part ≡ some n → (n ≤ 255) × (part ≡ octet_text n)
octet_lem part n h = ground (arith, units_eq_iff (octet_text (decimal 0 part)) part)

-- Every text of a byte reads back, and has no dot in it.
abbrev reads_as : Option ℕ → ℕ → Bool
reads_as none n = false
reads_as (some m) n = m == n

abbrev byte_test : ℕ → Bool
byte_test n = reads_as (octet (octet_text n)) n && not (includes_unit b'.' (octet_text n))

byte_table : holds_up_to byte_test 255 ≡ true
unfolding holds_up_to octet_text decimal units_eq
byte_table = refl

byte_lem :
    (n : ℕ)
    → n ≤ 255
    → (octet (octet_text n) ≡ some n) × (includes_unit b'.' (octet_text n) ≡ false)
byte_lem n h = let holds = holds_at byte_test 255 n byte_table h in ground arith

of_octets_lem :
    (oa ob oc od : Option ℕ) (v : ℕ)
    → of_octets oa ob oc od ≡ some v
    → (a b c d : ℕ) × (oa ≡ some a)
      × (ob ≡ some b)
      × (oc ≡ some c)
      × (od ≡ some d)
      × (a * 2 ^ 24 + b * 2 ^ 16 + c * 2 ^ 8 + d ≡ v)
of_octets_lem (some a) (some b) (some c) (some d) v h = (a, b, c, d, refl, refl, refl, refl, cc)
of_octets_lem none ob oc od v h = cc
of_octets_lem (some a) none oc od v h = cc
of_octets_lem (some a) (some b) none od v h = cc
of_octets_lem (some a) (some b) (some c) none v h = cc

-- The texts of the four bytes of a number.
abbrev byte_texts : ℕ → List (List ℕ)
byte_texts v =
    octet_text (v / 2 ^ 24)
    ∷ octet_text (v / 2 ^ 16 % 256)
    ∷ octet_text (v / 2 ^ 8 % 256)
    ∷ octet_text (v % 256)
    ∷ []

of_parts_lem :
    (parts : List (List ℕ)) (v : ℕ)
    → of_parts parts ≡ some v
    → (v < 2 ^ 32) × (parts ≡ byte_texts v)
of_parts_lem [] v h = cc
of_parts_lem (a ∷ []) v h = cc
of_parts_lem (a ∷ b ∷ []) v h = cc
of_parts_lem (a ∷ b ∷ c ∷ []) v h = cc
of_parts_lem (a ∷ b ∷ c ∷ d ∷ e ∷ rest) v h = cc
of_parts_lem (a ∷ b ∷ c ∷ d ∷ []) v h =
    let (na, nb, nc, nd, ea, eb, ec, ed, sum) =
      of_octets_lem (octet a) (octet b) (octet c) (octet d) v h in
    let (la, ta) = octet_lem a na ea in
    let (lb, tb) = octet_lem b nb eb in
    let (lc, tc) = octet_lem c nc ec in
    let (ld, td) = octet_lem d nd ed in
    let va : na ≡ v / 2 ^ 24 = omega arith in
    let vb : nb ≡ v / 2 ^ 16 % 256 = omega arith in
    let vc : nc ≡ v / 2 ^ 8 % 256 = omega arith in
    let vd : nd ≡ v % 256 = omega arith in (omega arith, rw (ta, tb, tc, td, va, vb, vc, vd) refl)

split_on-byte_texts : (v : ℕ) → v < 2 ^ 32 → split_on b'.' (ipv4_text v) ≡ byte_texts v
unfolding ipv4_text join
split_on-byte_texts v h =
    split_on-part b'.' (octet_text (v / 2 ^ 24)) _ (byte_lem (v / 2 ^ 24) (omega arith)).1
    ∙ ap (λ r. octet_text (v / 2 ^ 24) ∷ r)
        (split_on-part b'.' (octet_text (v / 2 ^ 16 % 256)) _
            (byte_lem (v / 2 ^ 16 % 256) (omega arith)).1
          ∙ ap (λ r. octet_text (v / 2 ^ 16 % 256) ∷ r)
              (split_on-part b'.' (octet_text (v / 2 ^ 8 % 256)) _
                  (byte_lem (v / 2 ^ 8 % 256) (omega arith)).1
                ∙ ap (λ r. octet_text (v / 2 ^ 8 % 256) ∷ r)
                    (split_on-last b'.' (octet_text (v % 256))
                      (byte_lem (v % 256) (omega arith)).1)))

of_parts-byte_texts : (v : ℕ) → v < 2 ^ 32 → of_parts (byte_texts v) ≡ some v
of_parts-byte_texts v h =
    let sum : v / 2 ^ 24 * 2 ^ 24 + v / 2 ^ 16 % 256 * 2 ^ 16 + v / 2 ^ 8 % 256 * 2 ^ 8 + v % 256
        ≡ v =
      omega arith in
    rw
      (
        (byte_lem (v / 2 ^ 24) (omega arith)).0,
        (byte_lem (v / 2 ^ 16 % 256) (omega arith)).0,
        (byte_lem (v / 2 ^ 8 % 256) (omega arith)).0,
        (byte_lem (v % 256) (omega arith)).0,
        sum,
      )
      refl

-- A text is read as an address exactly if the address is one of 32 bits and the text is the one that
-- it is written as.
pub ipv4_number_iff :
    (text : List ℕ) (v : ℕ) → (ipv4_number text ≡ some v) ↔ ((v < 2 ^ 32) × (text ≡ ipv4_text v))
unfolding ipv4_number ipv4_text
ipv4_number_iff text v = (
  λ h.
      let (low, parts) = of_parts_lem (split_on b'.' text) v h in
      (low, sym (join-split_on b'.' text) ∙ ap (join b'.') parts),
  λ h.
      let (low, same) = h in
      ap (λ t. of_parts (split_on b'.' t)) same
      ∙ ap of_parts (split_on-byte_texts v low)
      ∙ of_parts-byte_texts v low,
)

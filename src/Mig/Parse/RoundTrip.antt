-- ===== src/Mig/Parse/RoundTrip.antt =====
-- internal/mig/parse.go: `ParseProfileName` on printed names, and the names that it accepts.
use ghostgpu.Base.{
  ℕ, ◌*◌, ◌^◌, ◌<◌, true, some, [], ◌∷◌, ◌++◌, ◌≡◌, ◌≢◌, ◌↔◌, refl, sym, ap, ◌∙◌, arith, Text,
  codes, text_eq, Option-cases, inl, inr,
}
use ghostgpu.Base.Int.{pos, ◌*ℤ◌, wrap64_id, mul_pos, mul64, pos_part-mul, wrap64-IsInt64}
use ghostgpu.Text.{decimal, cut_prefix, all_digits, leading_digits, after_digits, value}
use ghostgpu.Text.Cut.{cut_prefix-append, cut_prefix-eq}
use ghostgpu.Text.Decimal.{
  leading-append-after, leading_digits-digits, leading_digits-append, after_digits-append,
  decimal-digits, decimal-ne-nil, parse_int-decimal, parse_int_value,
}
use ghostgpu.Platform.{Platform, IsLawful, binary_si}
use ghostgpu.Mig.{Profile}
use ghostgpu.Mig.Parse.{match_profile_name, parse_profile_name, gibibyte, profile_of}

-- The name of a profile of that many slices and that much memory.
abbrev pub profile_name : ℕ → ℕ → Text
profile_name slices gib = decimal slices ++ (codes "g." ++ (decimal gib ++ codes "gb"))

pub match_profile_name-profile_name :
    (slices gib : ℕ)
    → match_profile_name (profile_name slices gib) ≡ some (decimal slices, decimal gib)
unfolding match_profile_name
match_profile_name-profile_name slices gib =
    let rest = decimal gib ++ codes "gb" in
    ground (
      arith,
      after_digits-append (decimal slices) b'g' (b'.' ∷ rest) (decimal-digits slices) refl,
      leading_digits-append (decimal slices) b'g' (b'.' ∷ rest) (decimal-digits slices) refl,
      cut_prefix-append (codes "g.") rest,
      after_digits-append (decimal gib) b'g' (codes "b") (decimal-digits gib) refl,
      leading_digits-append (decimal gib) b'g' (codes "b") (decimal-digits gib) refl,
      decimal-ne-nil slices,
      decimal-ne-nil gib,
    )

-- The name `<slices>g.<gib>gb`, printed from a number of slices from 1 below 2 ^ 31 and a number of
-- GiB from 1 below 2 ^ 63, reads as the profile of these numbers, whose memory is their product of
-- int64.
pub parse_profile_name_wrapped :
    (P : Platform) (slices gib : ℕ)
    → 0 < slices
    → slices < 2 ^ 31
    → 0 < gib
    → gib < 2 ^ 63
    → parse_profile_name P (profile_name slices gib)
      ≡ some (profile_of P (profile_name slices gib) (pos slices) (pos gib))
unfolding parse_profile_name
parse_profile_name_wrapped P slices gib h0 h1 h2 h3 = ground (
  arith,
  match_profile_name-profile_name slices gib,
  parse_int-decimal (2 ^ 31) slices h1,
  parse_int-decimal (2 ^ 63) gib h3,
)

bytes-eq : (gib : ℕ) → gib < 2 ^ 33 → mul64 (pos gib) gibibyte ≡ pos (gib * 2 ^ 30)
bytes-eq gib h = rw (mul_pos gib (2 ^ 30)) (wrap64_id (pos (gib * 2 ^ 30)) (omega arith))

-- The name `<slices>g.<gib>gb`, printed from a number of slices from 1 below 2 ^ 31 and a number of
-- GiB from 1 below 2 ^ 33, reads as the profile of that name and of those slices whose memory is
-- the quantity of exactly gib * 2 ^ 30 bytes.
pub parse_profile_name-profile_name :
    (P : Platform) (slices gib : ℕ)
    → 0 < slices
    → slices < 2 ^ 31
    → 0 < gib
    → gib < 2 ^ 33
    → parse_profile_name P (profile_name slices gib)
      ≡ some (record {
        name = profile_name slices gib;
        slices = pos slices;
        memory = P.new_quantity (pos (gib * 2 ^ 30)) binary_si;
      })
parse_profile_name-profile_name P slices gib h0 h1 h2 h3 =
    parse_profile_name_wrapped P slices gib h0 h1 h2 (omega arith)
    ∙ ap
        (λ bytes. some (record {
          name = profile_name slices gib;
          slices = pos slices;
          memory = P.new_quantity bytes binary_si;
        }))
        (bytes-eq gib h3)

-- What a name that was read looks like, and what was read from it.
pub record Describes (P : Platform) (name : Text) (p : Profile P) : Type 0 where
  pub first : Text
  pub second : Text
  pub spelled : name ≡ first ++ (codes "g." ++ (second ++ codes "gb"))
  pub first_digits : all_digits first ≡ true
  pub second_digits : all_digits second ≡ true
  pub named : p.name ≡ name
  pub slices : p.slices ≡ pos (value 0 first)
  pub memory : p.memory ≡ P.new_quantity (mul64 (pos (value 0 second)) gibibyte) binary_si
  pub slices_pos : 0 < value 0 first
  pub slices_lt : value 0 first < 2 ^ 31
  pub memory_pos : 0 < value 0 second
  pub memory_lt : value 0 second < 2 ^ 63

match_profile_name-eq :
    (name first second : Text)
    → match_profile_name name ≡ some (first, second)
    → (name ≡ first ++ (codes "g." ++ (second ++ codes "gb")))
      × (first ≡ leading_digits name)
      × (first ≢ [])
      × (all_digits second ≡ true)
      × (second ≢ [])
unfolding match_profile_name
match_profile_name-eq name first second h =
    elim (Option-cases (cut_prefix (codes "g.") (after_digits name))) [
      | inl e ↦ ground arith
      | inr (rest, e) ↦
          let found = cut_prefix-eq (codes "g.") (after_digits name) rest e in
          let whole = leading-append-after name in
          let tail = leading-append-after rest in ground (arith, leading_digits-digits rest)
    ]

-- A name that reads as a profile is digits, `g.`, digits and `gb`, both numbers are at least 1 and
-- within int32 and int64, and the profile has that name, those slices and the int64 product of the
-- GiB and 2 ^ 30 as its memory.
pub parse_profile_name-Describes :
    (P : Platform) (name : Text) (p : Profile P)
    → parse_profile_name P name ≡ some p
    → Describes P name p
unfolding parse_profile_name
parse_profile_name-Describes P name p h = elim (Option-cases (match_profile_name name)) [
  | inl e ↦ ground arith
  | inr ((first, second), e) ↦
      let (spelled, at, ne, digits, ne') = match_profile_name-eq name first second e in
      let digits' : all_digits first ≡ true = rw at (leading_digits-digits name) in
      let read = parse_int_value (2 ^ 31) first ne digits' in
      let read' = parse_int_value (2 ^ 63) second ne' digits in
      record {
        first = first;
        second = second;
        spelled = spelled;
        first_digits = digits';
        second_digits = digits;
        named = ground arith;
        slices = ground arith;
        memory = ground arith;
        slices_pos = ground arith;
        slices_lt = ground arith;
        memory_pos = ground arith;
        memory_lt = ground arith;
      }
]

named_bytes-eq :
    (gib : ℕ)
    → gib < 2 ^ 33
    → mul64 (pos gib) gibibyte *ℤ pos (10 ^ 9) ≡ pos (gib * 2 ^ 30 * 10 ^ 9)
named_bytes-eq gib h = rw (
  mul_pos gib (2 ^ 30),
  wrap64_id (pos (gib * 2 ^ 30)) (omega arith),
  mul_pos (gib * 2 ^ 30) (10 ^ 9),
)

named_bytes-lt :
    (gib : ℕ)
    → mul64 (pos gib) gibibyte *ℤ pos (10 ^ 9) ≡ pos (gib * 2 ^ 30 * 10 ^ 9)
    → gib < 2 ^ 33
named_bytes-lt gib e =
    let small = wrap64-IsInt64 (pos gib *ℤ gibibyte) in
    let bound = pos_part-mul (mul64 (pos gib) gibibyte) (10 ^ 9) in ground arith

-- For lawful quantities and a name of at least 1 slice and 1 GiB that reads as a profile, the
-- memory that is read is the memory that the name says exactly when the name says less than 2 ^ 33
-- GiB: above, the product of int64 wraps around.
pub memory-eq-named_iff :
    (P : Platform) (L : IsLawful P) (slices gib : ℕ) (p : Profile P)
    → 0 < slices
    → slices < 2 ^ 31
    → 0 < gib
    → gib < 2 ^ 63
    → parse_profile_name P (profile_name slices gib) ≡ some p
    → (L.amount p.memory ≡ pos (gib * 2 ^ 30 * 10 ^ 9)) ↔ (gib < 2 ^ 33)
memory-eq-named_iff P L slices gib p h0 h1 h2 h3 e =
    let read = parse_profile_name_wrapped P slices gib h0 h1 h2 h3 in
    let same : p.memory ≡ P.new_quantity (mul64 (pos gib) gibibyte) binary_si = cc in
    (λ h. named_bytes-lt gib (sym (amount_of same) ∙ h), λ h. amount_of same ∙ named_bytes-eq gib h)
  where
    amount_of :
        p.memory ≡ P.new_quantity (mul64 (pos gib) gibibyte) binary_si
        → L.amount p.memory ≡ mul64 (pos gib) gibibyte *ℤ pos (10 ^ 9)
    amount_of same = rw same (L.amount-new_quantity _ binary_si)

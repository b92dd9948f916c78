-- ===== src/Rows/Instance/Canonical.antt =====
-- table_instance_parse of src/table_rows.c accepts only canonical text, which makes the mapping
-- between instances and their text one to one.
use agentx_subagent.Prelude.{
  ℕ, ◌+◌, ◌-◌, ◌*◌, ◌%◌, ◌^◌, ◌<◌, ◌≤◌, ◌≡◌, ◌≢◌, ◌⊎◌, refl, sym, ◌∙◌, ap, true, false, [], ◌∷◌,
  ◌++◌, Bytes, length, length-append, append_assoc, append-nil, some, All, ◌==◌, if◌then◌else◌,
  arith, Bool-cases, inl, inr,
}
use agentx_subagent.Storage.Codec.{got}
use agentx_subagent.Rows.Instance.{
  TableInstance, subid_max, is_digit, decimal, close_component, parse_loop, table_instance_parse,
  table_instance_format,
}
use agentx_subagent.Rows.Instance.Decimal.{decimal_digit, decimal_snoc}
use agentx_subagent.Rows.Instance.Format.{dotted, table_instance_format_lem}
use agentx_subagent.Rows.Instance.Parse.{IsSubid}

-- A leading zero is never mended by what follows it.
leading_zero :
    (s : Bytes) (value digits : ℕ) (inst xs : TableInstance)
    → 1 < digits
    → parse_loop s value digits b'0' inst ≢ got xs
unfolding parse_loop close_component
leading_zero [] value digits inst xs many h = ground arith
leading_zero (c ∷ cs) value digits inst xs many h =
    ground (arith, leading_zero cs ((value * 10 + (c - b'0')) % 2 ^ 64) (digits + 1) inst xs)

-- The state inside a component: nothing read, a single zero, or a number without leading zeros.
abbrev Inside : ℕ → ℕ → ℕ → Type 0
Inside value digits lead =
    ((digits ≡ 0) × (value ≡ 0))
    ⊎ ((digits ≡ 1) × (value ≡ 0) × (lead ≡ b'0'))
    ⊎ ((0 < value) × IsSubid value × (0 < digits) × (lead ≢ b'0'))

-- The text of the component so far.
abbrev so_far : ℕ → ℕ → Bytes
so_far value digits = if digits == 0 then [] else decimal value

digit_inv :
    (c : ℕ) (cs : Bytes) (value digits lead : ℕ) (inst xs : TableInstance)
    → is_digit c ≡ true
    → IsSubid value
    → parse_loop (c ∷ cs) value digits lead inst ≡ got xs
    → (b'0' ≤ c)
      × (c ≤ b'9')
      × IsSubid (value * 10 + (c - b'0'))
      × (parse_loop cs (value * 10 + (c - b'0')) (digits + 1) (if digits == 0 then c else lead) inst
          ≡ got xs)
unfolding parse_loop
digit_inv c cs value digits lead inst xs is fits h = ground arith

dot_inv :
    (c : ℕ) (cs : Bytes) (value digits lead : ℕ) (inst xs : TableInstance)
    → is_digit c ≡ false
    → parse_loop (c ∷ cs) value digits lead inst ≡ got xs
    → (c ≡ b'.')
      × (0 < length cs)
      × (0 < digits)
      × (length (inst ++ (value ∷ [])) ≢ subid_max)
      × (parse_loop cs 0 0 0 (inst ++ (value ∷ [])) ≡ got xs)
unfolding parse_loop close_component
dot_inv c cs value digits lead inst xs isnt h = ground arith

end_inv :
    (value digits lead : ℕ) (inst xs : TableInstance)
    → parse_loop [] value digits lead inst ≡ got xs
    → (0 < digits) × (xs ≡ inst ++ (value ∷ []))
unfolding parse_loop close_component
end_inv value digits lead inst xs h = ground arith

-- A digit makes the text so far one digit longer, or the component is lost to a leading zero.
digit_step :
    (c value digits lead : ℕ)
    → Inside value digits lead
    → b'0' ≤ c
    → c ≤ b'9'
    → IsSubid (value * 10 + (c - b'0'))
    → (Inside (value * 10 + (c - b'0')) (digits + 1) (if digits == 0 then c else lead)
        × (so_far (value * 10 + (c - b'0')) (digits + 1) ≡ so_far value digits ++ (c ∷ [])))
      ⊎ ((1 < digits + 1) × ((if digits == 0 then c else lead) ≡ b'0'))
digit_step c value digits lead (inl none_read) lo hi fits =
    ground (arith, decimal_digit (c - b'0') (omega arith))
digit_step c value digits lead (inr (inl zero_read)) lo hi fits = ground arith
digit_step c value digits lead (inr (inr some_read)) lo hi fits =
    ground (arith, decimal_snoc value (c - b'0') some_read.0 (omega arith) some_read.1)

Inside-IsSubid : (value digits lead : ℕ) → Inside value digits lead → IsSubid value
Inside-IsSubid value digits lead (inl h) = omega arith
Inside-IsSubid value digits lead (inr (inl h)) = omega arith
Inside-IsSubid value digits lead (inr (inr h)) = h.1

-- What the rest of a text spells, behind the sub-identifiers that are already there.
abbrev Spells : Bytes → ℕ → ℕ → TableInstance → TableInstance → Type 0
Spells s value digits inst xs =
    (ys : TableInstance) × (xs ≡ inst ++ ys)
    × (so_far value digits ++ s ≡ dotted ys)
    × All IsSubid ys
    × (0 < length ys)

Spells-end :
    (value digits lead : ℕ) (inst xs : TableInstance)
    → Inside value digits lead
    → parse_loop [] value digits lead inst ≡ got xs
    → Spells [] value digits inst xs
unfolding dotted
Spells-end value digits lead inst xs state h =
    let (pos, e) = end_inv value digits lead inst xs h in
    (
      value ∷ [],
      e,
      append-nil (so_far value digits) ∙ ground (arith, append-nil (decimal value)),
      (Inside-IsSubid value digits lead state, tt),
      omega arith,
    )

Spells-dot :
    (cs : Bytes) (value digits : ℕ) (inst xs : TableInstance)
    → IsSubid value
    → 0 < digits
    → Spells cs 0 0 (inst ++ (value ∷ [])) xs
    → Spells (b'.' ∷ cs) value digits inst xs
unfolding dotted
Spells-dot cs value digits inst xs fits pos (y ∷ ys, e, text, words, some_id) = (
  value ∷ y ∷ ys,
  e ∙ append_assoc inst (value ∷ []) (y ∷ ys),
  ground (arith, text),
  (fits, words),
  omega arith,
)
Spells-dot cs value digits inst xs fits pos ([], e, text, words, some_id) = absurd (omega arith)

spells :
    (s : Bytes) (value digits lead : ℕ) (inst xs : TableInstance)
    → Inside value digits lead
    → parse_loop s value digits lead inst ≡ got xs
    → Spells s value digits inst xs
spells [] value digits lead inst xs state h = Spells-end value digits lead inst xs state h
spells (c ∷ cs) value digits lead inst xs state h =
    let fits = Inside-IsSubid value digits lead state in
    elim (Bool-cases (is_digit c)) [
      | inl is ↦
          let (lo, hi, small, more) = digit_inv c cs value digits lead inst xs is fits h in
          elim (digit_step c value digits lead state lo hi small) [
            | inl (state', text) ↦
                let (ys, e, spelled, words, some_id) =
                  spells cs _ (digits + 1) _ inst xs state' more in
                (
                  ys,
                  e,
                  sym (append_assoc (so_far value digits) (c ∷ []) cs)
                      ∙ ap (λ t. t ++ cs) (sym text)
                      ∙ spelled,
                  words,
                  some_id,
                )
            | inr (many, zero_lead) ↦ absurd (
                leading_zero cs (value * 10 + (c - b'0')) (digits + 1) inst xs many
                  (rw zero_lead at more))
          ]
      | inr isnt ↦
          let (dot, some_rest, pos, room, more) = dot_inv c cs value digits lead inst xs isnt h in
          rw dot (
            Spells-dot cs value digits inst xs fits pos
              (spells cs 0 0 0 (inst ++ (value ∷ [])) xs (inl (refl, refl)) more))
    ]

within :
    (s : Bytes) (value digits lead : ℕ) (inst xs : TableInstance)
    → Inside value digits lead
    → length inst < subid_max
    → parse_loop s value digits lead inst ≡ got xs
    → length xs ≤ subid_max
within [] value digits lead inst xs state few h =
    let (pos, e) = end_inv value digits lead inst xs h in
    rw e (omega (arith, length-append inst (value ∷ [])))
within (c ∷ cs) value digits lead inst xs state few h =
    let fits = Inside-IsSubid value digits lead state in
    elim (Bool-cases (is_digit c)) [
      | inl is ↦
          let (lo, hi, small, more) = digit_inv c cs value digits lead inst xs is fits h in
          elim (digit_step c value digits lead state lo hi small) [
            | inl (state', text) ↦ within cs _ (digits + 1) _ inst xs state' few more
            | inr (many, zero_lead) ↦ absurd (
                leading_zero cs (value * 10 + (c - b'0')) (digits + 1) inst xs many
                  (rw zero_lead at more))
          ]
      | inr isnt ↦
          let (dot, some_rest, pos, room, more) = dot_inv c cs value digits lead inst xs isnt h in
          within cs 0 0 0 (inst ++ (value ∷ [])) xs (inl (refl, refl))
            (omega (arith, length-append inst (value ∷ []))) more
    ]

-- An accepted text is the dotted text of the instance that it yields, which is a proper one.
pub table_instance_parse-eq-got :
    (text : Bytes) (inst : TableInstance)
    → table_instance_parse (some text) true ≡ got inst
    → (text ≡ dotted inst) × All IsSubid inst × (0 < length inst) × (length inst ≤ subid_max)
unfolding table_instance_parse
table_instance_parse-eq-got text inst h =
    let more : parse_loop text 0 0 0 [] ≡ got inst = ground arith in
    let (ys, e, spelled, words, some_id) = spells text 0 0 0 [] inst (inl (refl, refl)) more in
    (
      rw e spelled,
      rw e words,
      rw e some_id,
      within text 0 0 0 [] inst (inl (refl, refl)) (omega arith) more,
    )

-- If table_instance_parse accepts a text, then table_instance_format of the result writes that
-- same text, in any buffer longer than it: only canonical texts are accepted.
pub format-parse :
    (text : Bytes) (inst : TableInstance) (buflen : ℕ)
    → table_instance_parse (some text) true ≡ got inst
    → length text < buflen
    → table_instance_format (some inst) true buflen ≡ got text
format-parse text inst buflen h room =
    let (dots, words, some_id, few) = table_instance_parse-eq-got text inst h in
    let fits : length (dotted inst) < buflen = rw (← dots) room in
    table_instance_format_lem inst buflen (omega arith) some_id few ∙ ground (arith, dots, fits)

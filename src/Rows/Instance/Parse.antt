-- ===== src/Rows/Instance/Parse.antt =====
-- table_instance_parse of src/table_rows.c reads back what table_instance_format wrote.
use agentx_subagent.Prelude.{
  ℕ, zero, suc, ◌+◌, ◌*◌, ◌/◌, ◌%◌, ◌^◌, ◌<◌, ◌≤◌, ◌≡◌, ◌≢◌, refl, ◌∙◌, ap, subst, true, [], ◌∷◌,
  ◌++◌, Bytes, length, length-append, append_assoc, some, All, ltb, ◌==◌, if◌then◌else◌, arith,
  Bool-cases, inl, inr,
}
use agentx_subagent.Storage.Codec.{got}
use agentx_subagent.Rows.Instance.{
  TableInstance, subid_max, decimal, close_component, parse_loop, table_instance_parse,
  table_instance_format,
}
use agentx_subagent.Rows.Instance.Decimal.{decimal_digit, decimal_snoc}
use agentx_subagent.Rows.Instance.Format.{dotted, dotted_tail, table_instance_format-eq-got}

abbrev pub IsSubid : ℕ → Type 0
IsSubid v = v < 2 ^ 32

-- One round of the inner loop.
digit_round :
    (d : ℕ) (cs : Bytes) (value digits lead : ℕ) (inst : TableInstance)
    → d < 10
    → IsSubid (value * 10 + d)
    → parse_loop ((b'0' + d) ∷ cs) value digits lead inst
      ≡ parse_loop cs (value * 10 + d) (digits + 1) (if digits == 0 then b'0' + d else lead) inst
unfolding parse_loop
digit_round d cs value digits lead inst small fits = ground arith

-- Behind the decimal text of `v` the loop stands with `v` as its value, whatever follows.
abbrev Reads : ℕ → Type 0
Reads v =
    (digits : ℕ) × (lead : ℕ) × (0 < digits)
    × (0 < v → lead ≢ b'0')
    × (v ≡ 0 → digits ≡ 1)
    × ((rest : Bytes) (inst : TableInstance)
        → parse_loop (decimal v ++ rest) 0 0 0 inst ≡ parse_loop rest v digits lead inst)

Reads-digit : (v : ℕ) → v < 10 → Reads v
Reads-digit v small = (
  1,
  b'0' + v,
  omega arith,
  λ pos. omega arith,
  λ e. refl,
  λ rest inst.
      rw (decimal_digit v small) (digit_round v rest 0 0 0 inst small (omega arith) ∙ ground arith),
)

Reads-snoc : (v d : ℕ) → 0 < v → d < 10 → IsSubid (v * 10 + d) → Reads v → Reads (v * 10 + d)
Reads-snoc v d pos small fits (digits, lead, some_digit, nonzero, zero_case, reads) = (
  digits + 1,
  lead,
  omega arith,
  λ p. nonzero pos,
  λ e. absurd (omega arith),
  λ rest inst.
      rw (decimal_snoc v d pos small (omega arith), append_assoc)
        (reads ((b'0' + d) ∷ rest) inst
          ∙ digit_round d rest v digits lead inst small fits
          ∙ ground arith),
)

Reads-decimal : (bound v : ℕ) → v < bound → IsSubid v → Reads v
Reads-decimal zero v h fits = absurd (omega arith)
Reads-decimal (suc bound) v h fits = elim (Bool-cases (ltb v 10)) [
  | inl small ↦ Reads-digit v (ground arith)
  | inr large ↦ subst Reads (omega arith) (
      Reads-snoc (v / 10) (v % 10) (ground arith) (omega arith) (omega arith)
        (Reads-decimal bound (v / 10) (ground arith) (omega arith)))
]

-- The component that the text of `v` spells is accepted.
close_read :
    (v digits lead : ℕ) (inst : TableInstance)
    → 0 < digits
    → (0 < v → lead ≢ b'0')
    → (v ≡ 0 → digits ≡ 1)
    → close_component v digits lead inst ≡ got (inst ++ (v ∷ []))
unfolding close_component
close_read zero digits lead inst pos nonzero zero_case = ground (arith, zero_case refl)
close_read (suc v) digits lead inst pos nonzero zero_case = ground (arith, nonzero (omega arith))

decimal-ne-nil : (bound v : ℕ) → v < bound → IsSubid v → (0 < length (decimal v))
decimal-ne-nil zero v h fits = absurd (omega arith)
decimal-ne-nil (suc bound) v h fits = elim (Bool-cases (ltb v 10)) [
  | inl small ↦ rw (decimal_digit v (ground arith)) (omega arith)
  | inr large ↦
      subst (λ n. 0 < length (decimal n)) {x = v / 10 * 10 + v % 10} (omega arith)
        (rw (decimal_snoc (v / 10) (v % 10) (ground arith) (omega arith) (omega arith))
          (omega (arith, length-append (decimal (v / 10)) ((b'0' + v % 10) ∷ []))))
]

-- A '.' with something behind it and room for one more starts the next component.
dot_round :
    (cs : Bytes) (value digits lead : ℕ) (inst inst' : TableInstance)
    → close_component value digits lead inst ≡ got inst'
    → 0 < length cs
    → length inst' ≢ subid_max
    → parse_loop (b'.' ∷ cs) value digits lead inst ≡ parse_loop cs 0 0 0 inst'
unfolding parse_loop
dot_round cs value digits lead inst inst' closed more room = rw closed (ground arith)

read_last :
    (v : ℕ) (inst : TableInstance)
    → Reads v
    → parse_loop (decimal v ++ []) 0 0 0 inst ≡ got (inst ++ (v ∷ []))
read_last v inst (digits, lead, pos, nonzero, zero_case, reads) =
    reads [] inst ∙ (unfold parse_loop in close_read v digits lead inst pos nonzero zero_case)

read_next :
    (v : ℕ) (cs : Bytes) (inst : TableInstance)
    → 0 < length cs
    → length (inst ++ (v ∷ [])) ≢ subid_max
    → Reads v
    → parse_loop (decimal v ++ (b'.' ∷ cs)) 0 0 0 inst ≡ parse_loop cs 0 0 0 (inst ++ (v ∷ []))
read_next v cs inst more room (digits, lead, pos, nonzero, zero_case, reads) =
    reads (b'.' ∷ cs) inst
    ∙ dot_round cs v digits lead inst (inst ++ (v ∷ []))
        (close_read v digits lead inst pos nonzero zero_case) more room

-- The outer loop, at the start of the component `v`, with `vs` to come.
parse_loop-dotted :
    (v : ℕ) (vs inst : TableInstance)
    → All IsSubid (v ∷ vs)
    → length inst + length (v ∷ vs) ≤ subid_max
    → parse_loop (decimal v ++ dotted_tail vs) 0 0 0 inst ≡ got (inst ++ (v ∷ vs))
unfolding dotted_tail
parse_loop-dotted v [] inst (hv, hvs) few =
    read_last v inst (Reads-decimal (suc v) v (omega arith) hv)
parse_loop-dotted v (w ∷ ws) inst (hv, hvs) few =
    read_next v (decimal w ++ dotted_tail ws) inst
      (omega (
        arith,
        length-append (decimal w) (dotted_tail ws),
        decimal-ne-nil (suc w) w (omega arith) hvs.0,
      ))
      (omega (arith, length-append inst (v ∷ []))) (Reads-decimal (suc v) v (omega arith) hv)
    ∙ parse_loop-dotted w ws (inst ++ (v ∷ [])) hvs (omega (arith, length-append inst (v ∷ [])))
    ∙ ap got (append_assoc inst (v ∷ []) (w ∷ ws))

pub parse-dotted :
    (inst : TableInstance)
    → All IsSubid inst
    → 0 < length inst
    → length inst ≤ subid_max
    → table_instance_parse (some (dotted inst)) true ≡ got inst
unfolding table_instance_parse dotted
parse-dotted [] words some_id few = absurd (omega arith)
parse-dotted (v ∷ vs) words some_id few = ground (
  arith,
  parse_loop-dotted v vs [] words,
  length-append (decimal v) (dotted_tail vs),
  decimal-ne-nil (suc v) v (omega arith) words.0,
)

-- If table_instance_format writes a text for an instance of 32-bit sub-identifiers, then
-- table_instance_parse of the text gives the instance.
pub parse-format :
    (inst : TableInstance) (buflen : ℕ) (text : Bytes)
    → All IsSubid inst
    → table_instance_format (some inst) true buflen ≡ got text
    → table_instance_parse (some text) true ≡ got inst
parse-format inst buflen text words h =
    let (dots, fits, some_id, few) = table_instance_format-eq-got inst buflen text h in
    rw dots (parse-dotted inst words some_id few)

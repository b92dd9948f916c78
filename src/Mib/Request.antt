-- ===== src/Mib/Request.antt =====
-- Requests as plain records that meet what is assumed of Net-SNMP. They model no code: the concrete
-- runs of src/generated/*.c use them.
use agentx_subagent.Prelude.{
  ℕ, ◌≡◌, ◌≢◌, ◌∙◌, refl, Bool, true, false, not, Bool-cases, inl, inr, Option, none, some, List,
  [], ◌∷◌, Bytes, same, same_refl, same→eq, length, if◌then◌else◌, arith,
}
use agentx_subagent.Prelude.Int.{ℤ}
use agentx_subagent.Mib.Snmp.{
  SnmpErr, Asn, asn_integer, asn_unsigned, asn_counter, asn_octet_str, Snmp, SnmpLaws,
}
use agentx_subagent.Mib.Columns.{TableInfo, TableSnmp, TableLaws}

-- The varbind, the errors in the order in which they were set, the data list, and what the table
-- helper has attached; index varbinds are the sub-identifiers that they were built from.
pub record Request (U : Type 0) : Type 0 where
  pub asn : Asn
  pub integer : ℤ
  pub string : Bytes
  pub errors : List SnmpErr
  pub data_list : List (Bytes × U)
  pub info : Option (TableInfo (List ℕ))
  pub row : Bool

abbrev is_asn : Asn → Asn → Bool
is_asn asn_integer asn_integer = true
is_asn asn_unsigned asn_unsigned = true
is_asn asn_counter asn_counter = true
is_asn asn_octet_str asn_octet_str = true
is_asn a b = false

abbrev pub is_empty : {A : Type 0} → List A → Bool
is_empty [] = true
is_empty (x ∷ xs) = false

differ : (name other : Bytes) → name ≢ other → same other name ≡ false
differ name other ne = elim (Bool-cases (same other name)) [
  | inl eq ↦ absurd (ne (ground (arith, same→eq other name eq)))
  | inr h ↦ h
]

module _ {U : Type 0} where
  unfoldable named : Bytes → List (Bytes × U) → Option U
  named name [] = none
  named name ((other, u) ∷ us) =
      let rest = named name us in if same other name then some u else rest

  unfoldable others : Bytes → List (Bytes × U) → List (Bytes × U)
  others name [] = []
  others name ((other, u) ∷ us) =
      let rest = others name us in if same other name then rest else (other, u) ∷ rest

  named-others : (name : Bytes) (us : List (Bytes × U)) → named name (others name us) ≡ none
  unfolding named others
  named-others name [] = refl
  named-others name ((other, u) ∷ us) = elim (Bool-cases (same other name)) [
    | inl mine ↦ rw mine (named-others name us)
    | inr not_mine ↦ rw not_mine (rw not_mine (named-others name us))
  ]

  named-others_ne :
      (name other : Bytes) (us : List (Bytes × U))
      → name ≢ other
      → named name (others other us) ≡ named name us
  unfolding named others
  named-others_ne name other [] ne = refl
  named-others_ne name other ((k, u) ∷ us) ne = elim (Bool-cases (same k other)) [
    | inl gone ↦
        let is_other : k ≡ other = same→eq k other gone in
        rw gone
          (named-others_ne name other us ne ∙ rw (differ name k (λ e. ne (e ∙ is_other))) refl)
    | inr stays ↦ rw stays (rw (named-others_ne name other us ne) refl)
  ]

  unfoldable pub requests : Snmp (Request U) U
  unfolding named others
  requests = record {
    check_vb_type = λ q a. is_asn q.asn a;
    integer = λ q. q.integer;
    string = λ q. q.string;
    val_len = λ q. length q.string;
    set_request_error = λ e q. record q { errors = e ∷ q.errors };
    set_var_integer = λ a v q. record q { asn = a; integer = v };
    set_var_value = λ a v q. record q { asn = a; string = v };
    add_list_data = λ name u q. record q { data_list = (name, u) ∷ q.data_list };
    get_list_data = λ name q. named name q.data_list;
    remove_list_data = λ name q. record q { data_list = others name q.data_list };
  }

  pub request_laws : SnmpLaws requests
  unfolding requests named
  request_laws = record {
    failed = λ q. not (is_empty q.errors);
    error_fails = λ e q h. refl;
    get-add_list_data = λ name u q free. rw (same_refl name) refl;
    get-remove_list_data = λ name q. named-others name q.data_list;
    get-add_list_data_ne = λ name other u q ne. rw (differ name other ne) refl;
    get-remove_list_data_ne = λ name other q ne. named-others_ne name other q.data_list ne;
    get_list_data-error = λ name e q. refl;
    integer-add_list_data = λ name u q. refl;
    string-add_list_data = λ name u q. refl;
    val_len-add_list_data = λ name u q. refl;
    val_len-le = λ q. omega arith;
  }

pub failed_errors :
    {U : Type 0} (q : Request U) → (request_laws {U = U}).failed q ≡ not (is_empty q.errors)
unfolding request_laws
failed_errors q = refl

-- Every row fits the index syntax.
unfoldable pub tables : {U : Type 0} → TableSnmp (Request U) (List ℕ)
tables = record {
  extract_table_info = λ q. q.info;
  extract_iterator_context = λ q. q.row;
  parse = λ subids template. some subids;
  build = λ subids. some subids;
}

pub table_laws : {U : Type 0} → TableLaws (requests {U = U}) (tables {U = U})
unfolding requests tables
table_laws = record {
  info-error = λ e q. refl;
  info-add_list_data = λ name u q. refl;
  context-error = λ e q. refl;
  context-add_list_data = λ name u q. refl;
}

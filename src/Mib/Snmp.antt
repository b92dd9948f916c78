-- ===== src/Mib/Snmp.antt =====
-- What the generated code uses of Net-SNMP, which is not part of the program, as an interface, and
-- what its documentation promises.
use agentx_subagent.Prelude.{ℕ, ◌≤◌, ◌≡◌, ◌≢◌, Bool, true, false, Option, none, some, Bytes, length}
use agentx_subagent.Prelude.Int.{ℤ}

-- reqinfo->mode: MODE_GET, MODE_SET_RESERVE1 and so on; `other` is any mode that is not handled.
pub data Mode : Type 0 where
  get set_reserve1 set_reserve2 set_free set_action set_commit set_undo other : Mode

-- SNMP_ERR_NOERROR is `no_error`, SNMP_NOSUCHINSTANCE is `no_such_instance`, and so on.
pub data SnmpErr : Type 0 where
  no_error gen_err no_such_instance no_such_object wrong_type wrong_length wrong_value : SnmpErr
  resource_unavailable commit_failed undo_failed no_creation not_writable : SnmpErr

-- SNMP_ERR_NOERROR is no error, and the two exceptions are answers.
abbrev pub is_error : SnmpErr → Bool
is_error no_error = false
is_error no_such_instance = false
is_error no_such_object = false
is_error e = true

-- ASN_INTEGER, ASN_UNSIGNED, ASN_COUNTER and ASN_OCTET_STR
pub data Asn : Type 0 where
  asn_integer asn_unsigned asn_counter asn_octet_str : Asn

-- `Q` is the state of a netsnmp_request_info and its varbind, `U` what a handler stashes under its
-- own names in the request's data list.
pub record Snmp (Q U : Type 0) : Type 0 where
  -- true is SNMP_ERR_NOERROR
  pub check_vb_type : Q → Asn → Bool
  -- *requestvb->val.integer
  pub integer : Q → ℤ
  -- requestvb->val.string and requestvb->val_len
  pub string : Q → Bytes
  pub val_len : Q → ℕ
  pub set_request_error : SnmpErr → Q → Q
  -- snmp_set_var_typed_integer and snmp_set_var_typed_value on requestvb
  pub set_var_integer : Asn → ℤ → Q → Q
  pub set_var_value : Asn → Bytes → Q → Q
  pub add_list_data : Bytes → U → Q → Q
  pub get_list_data : Bytes → Q → Option U
  pub remove_list_data : Bytes → Q → Q

-- `failed` says whether the request reports an error.
pub record SnmpLaws {Q U : Type 0} (s : Snmp Q U) : Type 0 where
  pub failed : Q → Bool
  pub error_fails :
      (e : SnmpErr) (q : Q) → is_error e ≡ true → failed (s.set_request_error e q) ≡ true
  -- the data list of a request is its own, and a name is free before it is used
  pub get-add_list_data :
      (name : Bytes) (u : U) (q : Q)
      → s.get_list_data name q ≡ none
      → s.get_list_data name (s.add_list_data name u q) ≡ some u
  pub get-remove_list_data :
      (name : Bytes) (q : Q) → s.get_list_data name (s.remove_list_data name q) ≡ none
  pub get-add_list_data_ne :
      (name other : Bytes) (u : U) (q : Q)
      → name ≢ other
      → s.get_list_data name (s.add_list_data other u q) ≡ s.get_list_data name q
  pub get-remove_list_data_ne :
      (name other : Bytes) (q : Q)
      → name ≢ other
      → s.get_list_data name (s.remove_list_data other q) ≡ s.get_list_data name q
  pub get_list_data-error :
      (name : Bytes) (e : SnmpErr) (q : Q)
      → s.get_list_data name (s.set_request_error e q) ≡ s.get_list_data name q
  -- a stash does not change the varbind
  pub integer-add_list_data :
      (name : Bytes) (u : U) (q : Q) → s.integer (s.add_list_data name u q) ≡ s.integer q
  pub string-add_list_data :
      (name : Bytes) (u : U) (q : Q) → s.string (s.add_list_data name u q) ≡ s.string q
  pub val_len-add_list_data :
      (name : Bytes) (u : U) (q : Q) → s.val_len (s.add_list_data name u q) ≡ s.val_len q
  -- val_len bytes are there
  pub val_len-le : (q : Q) → s.val_len q ≤ length (s.string q)

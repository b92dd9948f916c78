-- ===== src/Mib/Tables/Registry.antt =====
-- init_demo_config_table and init_demo_status_table: how the tables of
-- src/generated/demo_config_table.c and demo_status_table.c are registered with the master agent.
use agentx_subagent.Prelude.{
  ℕ, Bool, true, false, not, ◌||◌, Option, none, some, List, [], ◌∷◌, text, if◌then◌else◌,
}
use agentx_subagent.Mib.Snmp.{Asn, asn_unsigned}
use agentx_subagent.Mib.Scalars.Registry.{Registration}

pub data Table : Type 0 where
  port_config_table sensor_table : Table

-- netsnmp_table_registration_info and netsnmp_iterator_info
pub record TableRegistration : Type 0 where
  pub reg : Registration Table
  pub indexes : List Asn
  pub min_column : ℕ
  pub max_column : ℕ
  pub sorted : Bool

-- Which allocations succeed, and whether netsnmp_register_table_iterator does.
pub record RegisterCalls : Type 0 where
  pub registration : Bool
  pub table_info : Bool
  pub iinfo : Bool
  pub register : Bool

abbrev registered : RegisterCalls → TableRegistration → Option TableRegistration
registered calls table =
    if not calls.registration
    then none
    else if not calls.table_info || not calls.iinfo
    then none
    else if calls.register
    then some table
    else none

unfoldable pub init_demo_config_table : RegisterCalls → Option TableRegistration
init_demo_config_table calls = registered calls (record {
  reg = record {
    name = text "portConfigTable";
    handler = port_config_table;
    oid = 1 ∷ 3 ∷ 6 ∷ 1 ∷ 4 ∷ 1 ∷ 99999 ∷ 1 ∷ 5 ∷ [];
    writable = true;
  };
  indexes = asn_unsigned ∷ [];
  min_column = 2;
  max_column = 4;
  sorted = true;
})

unfoldable pub init_demo_status_table : RegisterCalls → Option TableRegistration
init_demo_status_table calls = registered calls (record {
  reg = record {
    name = text "sensorTable";
    handler = sensor_table;
    oid = 1 ∷ 3 ∷ 6 ∷ 1 ∷ 4 ∷ 1 ∷ 99999 ∷ 2 ∷ 5 ∷ [];
    writable = false;
  };
  indexes = asn_unsigned ∷ [];
  min_column = 2;
  max_column = 4;
  sorted = true;
})

-- ===== src/Mib/Columns.antt =====
-- The columns of portConfigTable and sensorTable in src/generated/demo_config_table.c and
-- demo_status_table.c, and what the table helper of Net-SNMP hands over with a request.
use agentx_subagent.Prelude.{
  ℕ, ◌≡◌, Bool, true, ◌==◌, Option, none, some, List, [], Bytes, text, if◌then◌else◌,
}
use agentx_subagent.Storage.Codec.{Res}
use agentx_subagent.Storage.Envs.{EnvRef, cache}
use agentx_subagent.Rows.Instance.{TableInstance, table_cell_key}
use agentx_subagent.Mib.Modes.{storage_modes, env_of}
use agentx_subagent.Mib.Values.{Cell, Syntax, integer32, unsigned32, octet_string}
use agentx_subagent.Mib.Snmp.{SnmpErr, Asn, asn_integer, asn_counter, asn_octet_str, Snmp}

-- struct undo_portDescr and the other two.
pub record CellUndo : Type 0 where
  pub key : Bytes
  pub existed : Bool
  pub value : Cell

-- What netsnmp_extract_table_info finds in a request: the column number and the index varbinds.
pub record TableInfo (V : Type 0) : Type 0 where
  pub colnum : ℕ
  pub indexes : V

-- What the table helper hands over with a request, and Net-SNMP's index codec.
pub record TableSnmp (Q V : Type 0) : Type 0 where
  pub extract_table_info : Q → Option (TableInfo V)
  -- true is a context that is not NULL: the row exists
  pub extract_iterator_context : Q → Bool
  pub parse : List ℕ → V → Option V
  pub build : V → Option (List ℕ)

-- Errors and stashes leave alone what the table helper has attached.
pub record TableLaws {Q U V : Type 0} (s : Snmp Q U) (t : TableSnmp Q V) : Type 0 where
  pub info-error :
      (e : SnmpErr) (q : Q)
      → t.extract_table_info (s.set_request_error e q) ≡ t.extract_table_info q
  pub info-add_list_data :
      (name : Bytes) (u : U) (q : Q)
      → t.extract_table_info (s.add_list_data name u q) ≡ t.extract_table_info q
  pub context-error :
      (e : SnmpErr) (q : Q)
      → t.extract_iterator_context (s.set_request_error e q) ≡ t.extract_iterator_context q
  pub context-add_list_data :
      (name : Bytes) (u : U) (q : Q)
      → t.extract_iterator_context (s.add_list_data name u q) ≡ t.extract_iterator_context q

-- A column: COLUMN_PORTDESCR and so on.
pub data PortColumn : Type 0 where
  port_descr port_admin_status port_alarm_threshold : PortColumn

pub data SensorColumn : Type 0 where
  sensor_name sensor_temp sensor_sample_count : SensorColumn

-- `switch (table_info->colnum)`; none is its default
abbrev pub port_column : ℕ → Option PortColumn
port_column colnum =
    if colnum == 2
    then some port_descr
    else if colnum == 3
    then some port_admin_status
    else if colnum == 4
    then some port_alarm_threshold
    else none

abbrev pub sensor_column : ℕ → Option SensorColumn
sensor_column colnum =
    if colnum == 2
    then some sensor_name
    else if colnum == 3
    then some sensor_temp
    else if colnum == 4
    then some sensor_sample_count
    else none

-- What the code of a column differs in.
pub record ColumnInfo : Type 0 where
  pub name : Bytes
  pub ref : EnvRef
  pub syntax : Syntax
  pub asn : Asn
  pub undo_name : Bytes

abbrev pub port_info : PortColumn → ColumnInfo
port_info port_descr = record {
  name = text "portDescr";
  ref = env_of storage_modes.port_descr;
  syntax = octet_string 64;
  asn = asn_octet_str;
  undo_name = text "undo_portDescr";
}
port_info port_admin_status = record {
  name = text "portAdminStatus";
  ref = env_of storage_modes.port_admin_status;
  syntax = integer32;
  asn = asn_integer;
  undo_name = text "undo_portAdminStatus";
}
port_info port_alarm_threshold = record {
  name = text "portAlarmThresholdMilliC";
  ref = env_of storage_modes.port_alarm_threshold_milli_c;
  syntax = integer32;
  asn = asn_integer;
  undo_name = text "undo_portAlarmThresholdMilliC";
}

-- The columns of the read-only table have no stash.
abbrev pub sensor_info : SensorColumn → ColumnInfo
sensor_info sensor_name = record {
  name = text "sensorName";
  ref = cache;
  syntax = octet_string 32;
  asn = asn_octet_str;
  undo_name = [];
}
sensor_info sensor_temp = record {
  name = text "sensorTempMilliC";
  ref = cache;
  syntax = integer32;
  asn = asn_integer;
  undo_name = [];
}
sensor_info sensor_sample_count = record {
  name = text "sensorSampleCount";
  ref = cache;
  syntax = unsigned32;
  asn = asn_counter;
  undo_name = [];
}

abbrev pub info_of : {A : Type 0} → (A → ColumnInfo) → Option A → Option ColumnInfo
info_of info none = none
info_of info (some column) = some (info column)

abbrev pub port_info_at : ℕ → Option ColumnInfo
port_info_at colnum = info_of port_info (port_column colnum)

abbrev pub sensor_info_at : ℕ → Option ColumnInfo
sensor_info_at colnum = info_of sensor_info (sensor_column colnum)

-- table_cell_key(column, inst, key, STORAGE_KEY_MAX + 1)
abbrev pub cell_key : ColumnInfo → TableInstance → Res Bytes
cell_key column inst = table_cell_key (some column.name) (some inst) true 256

-- ===== src/Bootstrap/Plan/Keys.antt =====
-- The keys that src/generated/storage_bootstrap.c seeds.
use agentx_subagent.Prelude.{refl}
use agentx_subagent.Storage.Codec.{validate_key}
use agentx_subagent.Rows.Instance.{
  table_cell_key, table_instance_format, format_loop, decimal, digits,
}
use agentx_subagent.Bootstrap.{
  cache_seeds, config_seeds, cache_config_scalars, cache_status_scalars, cache_port_columns,
  config_scalars, config_port_columns,
}
use agentx_subagent.Bootstrap.Plan.{default_of, Seeded, done, next}

pub cache_seeds-Seeded : Seeded cache_seeds
unfolding cache_seeds cache_config_scalars cache_status_scalars cache_port_columns table_cell_key
    default_of validate_key table_instance_format format_loop decimal digits
cache_seeds-Seeded = next _ refl refl refl (
    next _ refl refl refl (
      next _ refl refl refl (
        next _ refl refl refl (
          next _ refl refl refl (
            next _ refl refl refl
              (next _ refl refl refl (next _ refl refl refl (next _ refl refl refl done))))))))

pub config_seeds-Seeded : Seeded config_seeds
unfolding config_seeds config_scalars config_port_columns table_cell_key default_of validate_key
    table_instance_format format_loop decimal digits
config_seeds-Seeded = next _ refl refl refl (
    next _ refl refl refl (
      next _ refl refl refl (
        next _ refl refl refl (
          next _ refl refl refl (
            next _ refl refl refl (
              next _ refl refl refl (
                next _ refl refl refl (
                  next _ refl refl refl (next _ refl refl refl (next _ refl refl refl done))))))))))

-- ===== src/Journal/Writer/Config.antt =====
-- journal/writer.rs: the writer's configuration.
use ai_systems_verification.Base.{
  ℕ, ◌*◌, ◌^◌, ◌≤◌, ◌≡◌, ◌↔◌, Bool, true, false, Option, none, some, arith, if◌then◌else◌, ltb,
}

abbrev pub default_ring_buffer_capacity : ℕ
default_ring_buffer_capacity = 16384

abbrev pub default_file_size : ℕ
default_file_size = 64 * 1024 * 1024

abbrev pub min_file_size : ℕ
min_file_size = 1024 * 1024

abbrev pub max_file_size : ℕ
max_file_size = 4 * 1024 * 1024 * 1024

pub record WriterConfig : Type 0 where
  pub ring_buffer_capacity : ℕ
  pub file_size : ℕ
  pub compress_schema : Bool
  pub sync_on_close : Bool
  pub prefault_pages : Bool

-- `WriterConfig::default` and `WriterConfig::minimal`.
pub default : WriterConfig
default = record {
  ring_buffer_capacity = default_ring_buffer_capacity;
  file_size = default_file_size;
  compress_schema = true;
  sync_on_close = true;
  prefault_pages = true;
}

pub minimal : WriterConfig
minimal = record {
  ring_buffer_capacity = 256;
  file_size = min_file_size;
  compress_schema = true;
  sync_on_close = false;
  prefault_pages = false;
}

-- The `InvalidConfig` errors of `validate`.
pub data ConfigError : Type 0 where
  capacity_too_small : ConfigError
  file_too_small : ConfigError
  file_too_large : ConfigError

pub validate : WriterConfig → Option ConfigError
validate c =
    if ltb c.ring_buffer_capacity 16
    then some capacity_too_small
    else (if ltb c.file_size min_file_size
        then some file_too_small
        else (if ltb max_file_size c.file_size then some file_too_large else none))

-- What a valid configuration has.
pub record IsValid (c : WriterConfig) : Type 0 where
  pub capacity_ge : 16 ≤ c.ring_buffer_capacity
  pub file_size_ge : min_file_size ≤ c.file_size
  pub file_size_le : c.file_size ≤ 2 ^ 32

-- `validate` finds no error exactly in the configurations that are valid.
pub validate-IsValid : (c : WriterConfig) → (validate c ≡ none) ↔ IsValid c
unfolding validate
validate-IsValid c = (λ h. ground arith, λ v. ground arith)

-- The two configurations that the writer offers are valid.
presets-IsValid : IsValid default × IsValid minimal
unfolding default minimal
presets-IsValid = (omega arith, omega arith)

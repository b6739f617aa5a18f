-- ===== src/Retention/Tests.antt =====
-- A directory of log files for src/retention.rs, and what the theorems say of it.
use edgewit.Prelude.{
  ◌≤◌, ◌<◌, ◌≡◌, ◌≢◌, refl, true, false, none, some, List, [], ◌∷◌, ascii, text_eq, arith,
}
use edgewit.Prelude.Attempts.{fails}
use edgewit.Prelude.Numbers.{
  ℤ, i64_max, parse_u64, parse_unsigned, digits, digit, parse_i64, parse_hex,
}
use edgewit.Schema.Definition.{IndexDefinition}
use edgewit.Schema.Tests.{index, two_fields}
use edgewit.Schema.Validation.{is_unit, split_at, is_char_boundary}
use edgewit.Schema.Retentions.{IsRetention}
use edgewit.Retention.Duration.{Chrono, absent, duration_of, parse_retention_duration}
use edgewit.Retention.Worker.{apply_retention}
use edgewit.Retention.Policies.{valid_retention_is_read}
use edgewit.Retention.Tick.{Checked, check, IsDone, check-IsDone}
use edgewit.Retention.Cleanup.{
  DirEntry, WalFile, wal_file, extension, file_stem, last_dot, sort_by_start, insert_by_start,
  wal_files, cleanup_wals,
}
use edgewit.Retention.Size.{RetentionConfig, dir_size}
use edgewit.Retention.Pruning.{all_removable}
use edgewit.Retention.Order.{Among, empty_log_is_deleted}

abbrev exact : Chrono
exact = record { Duration = ℤ; seconds = some; minutes = some; hours = some; days = some }

seven_days : IsRetention (ascii "7d") 7 100
unfolding parse_u64 parse_unsigned digits digit is_unit text_eq
seven_days = record { num = ascii "7"; form = refl; number = refl; units = refl }

valid_retention_is_read_example :
    (7 ≤ i64_max → parse_retention_duration exact (ascii "7d") ≢ fails absent)
    × (i64_max < 7 → parse_retention_duration exact (ascii "7d") ≡ fails absent)
valid_retention_is_read_example = valid_retention_is_read exact (ascii "7d") 7 100 seven_days

abbrev logs : List WalFile
logs =
    record { start = 0; path = ascii "0.wal"; size = 100 }
    ∷ record { start = 100; path = ascii "64.wal"; size = 200 }
    ∷ record { start = 300; path = ascii "12c.wal"; size = 300 }
    ∷ []

abbrev empty_log : DirEntry
empty_log = record { name = ascii "0000000000000000.wal"; is_file = true; size = some 0 }

abbrev empty_file : WalFile
empty_file = record { start = 0; path = ascii "0000000000000000.wal"; size = 0 }

empty_log_found : wal_file empty_log ≡ some empty_file
unfolding wal_file extension file_stem last_dot parse_hex parse_unsigned digits digit text_eq
empty_log_found = refl

empty_log_is_deleted_example :
    Among empty_file (cleanup_wals all_removable (some (empty_log ∷ [])) 0 1000).0
empty_log_is_deleted_example =
    empty_log_is_deleted all_removable [] [] empty_log empty_file 1000 empty_log_found refl refl
      refl

abbrev listed : List IndexDefinition
listed = index two_fields (some (ascii "7d")) ∷ index two_fields none ∷ []

runs : (apply_retention exact ℤ some listed).1 ≡ true
unfolding apply_retention parse_retention_duration duration_of split_at is_char_boundary parse_i64
    parse_unsigned digits digit text_eq
runs = refl

abbrev limits : RetentionConfig
limits = record { max_index_bytes = 1000; max_wal_bytes = 1000 }

abbrev one_tick : Checked ℤ
one_tick = record {
  commands = (apply_retention exact ℤ some listed).0;
  too_large = false;
  deleted = (cleanup_wals all_removable (some (empty_log ∷ [])) 0 limits.max_wal_bytes).0;
  left = (cleanup_wals all_removable (some (empty_log ∷ [])) 0 limits.max_wal_bytes).1;
}

ticks :
    check exact ℤ some all_removable limits
      (record { definitions = listed; indexes = none; log_dir = some (empty_log ∷ []) })
    ≡ some one_tick
unfolding check apply_retention parse_retention_duration duration_of split_at is_char_boundary
    parse_i64 parse_unsigned digits digit text_eq dir_size
ticks = refl

check-IsDone_example : IsDone exact ℤ some limits listed (empty_log ∷ []) one_tick
unfolding wal_files sort_by_start insert_by_start wal_file extension file_stem last_dot parse_hex
    parse_unsigned digits digit text_eq
check-IsDone_example =
    check-IsDone exact ℤ some limits listed none (empty_log ∷ []) one_tick (omega arith) ticks

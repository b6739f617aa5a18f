-- ===== src/Startup/Tests.antt =====
-- A start without a setting, on an empty disk.
use edgewit.Prelude.{◌≡◌, refl, true, Option, none, [], Text, ascii, ltb}
use edgewit.Prelude.Attempts.{returns}
use edgewit.Prelude.Numbers.{parse_unsigned, parse_u64, digits, digit}
use edgewit.Registry.Loading.{missing, load_from_dir}
use edgewit.Registry.Store
use edgewit.Indexer.Tests.{engine}
use edgewit.Startup.{Settings, program, settings, number_setting, parse_u16, launch}

abbrev unset : Text → Option Text
unset name = none

abbrev defaults : Settings
defaults = record {
  port = 9200;
  data_dir = ascii "./data";
  index_memory_mb = 30;
  channel_buffer = 10000;
  search_threads = 1;
  docstore_cache_blocks = 20;
}

launched :
    launch engine unset (λ n. true) (ltb 0) (λ bytes. none) missing []
    ≡ returns (program engine unset [] defaults Store.new)
unfolding launch settings number_setting parse_u16 parse_u64 parse_unsigned digits digit
    load_from_dir
launched = refl

-- ===== src/Startup/Reading.antt =====
-- How `main` of src/main.rs reads its settings from the environment.
use edgewit.Prelude.{
  ℕ, ◌≤◌, ◌^◌, ◌<◌, ◌≡◌, refl, Option, none, some, [], ◌∷◌, Text, ascii, Result, ok, err, ok_or,
  ◌>>=◌, Option-cases, ◌*◌, ◌+◌, inl, inr, arith,
}
use edgewit.Prelude.Numbers.{parse_u64, parse_unsigned, after_plus, digits, digit}
use edgewit.Startup.{Settings, parse_u16, unwrap_or, number_setting, usize_setting, settings}

-- A setting is the number in its variable, or the default if the variable is not set.
abbrev pub Reads : (Text → Option Text) → (Text → Option ℕ) → Text → Text → ℕ → Type 0
Reads var parse name default n = parse (unwrap_or default (var name)) ≡ some n

pub record AreRead (var : Text → Option Text) (c : Settings) : Type 0 where
  pub port : Reads var parse_u16 (ascii "EDGEWIT_PORT") (ascii "9200") c.port
  pub data_dir : c.data_dir ≡ unwrap_or (ascii "./data") (var (ascii "EDGEWIT_DATA_DIR"))
  pub index_memory_mb :
      Reads var parse_u64 (ascii "EDGEWIT_INDEX_MEMORY_MB") (ascii "30") c.index_memory_mb
  pub channel_buffer :
      Reads var parse_u64 (ascii "EDGEWIT_CHANNEL_BUFFER") (ascii "10000") c.channel_buffer
  pub search_threads :
      Reads var parse_u64 (ascii "EDGEWIT_SEARCH_THREADS") (ascii "1") c.search_threads
  pub docstore_cache_blocks :
      Reads var parse_u64
        (ascii "EDGEWIT_DOCSTORE_CACHE_BLOCKS")
        (ascii "20")
        c.docstore_cache_blocks

-- A setting that was read, and what was made of it and those behind it.
read_first :
    {A : Type 0} (setting : Result Text A) (rest : A → Result Text Settings) {c : Settings}
    → (setting >>= rest) ≡ ok c
    → (n : A) × ((rest n ≡ ok c) × (setting ≡ ok n))
read_first (err m) rest h = absurd (cc h)
read_first (ok n) rest h = (n, (h, refl))

number_setting-Reads :
    (var : Text → Option Text) (parse : Text → Option ℕ) (name default message : Text) (n : ℕ)
    → number_setting var parse name default message ≡ ok n
    → Reads var parse name default n
unfolding number_setting
number_setting-Reads var parse name default message n h =
    of_parse (parse (unwrap_or default (var name))) h
  where
    of_parse : (o : Option ℕ) → ok_or message o ≡ ok n → o ≡ some n
    of_parse none e = absurd (cc e)
    of_parse (some m) e = cc e

pub settings-AreRead :
    (var : Text → Option Text) (c : Settings) → settings var ≡ ok c → AreRead var c
unfolding settings
settings-AreRead var c h =
    let (port, (h1, e1)) =
      read_first
        (number_setting var parse_u16 (ascii "EDGEWIT_PORT") (ascii "9200")
          (ascii "EDGEWIT_PORT must be a valid u16"))
        _ h in
    let (memory, (h2, e2)) =
      read_first (usize_setting var (ascii "EDGEWIT_INDEX_MEMORY_MB") (ascii "30")) _ h1 in
    let (buffer, (h3, e3)) =
      read_first (usize_setting var (ascii "EDGEWIT_CHANNEL_BUFFER") (ascii "10000")) _ h2 in
    let (threads, (h4, e4)) =
      read_first (usize_setting var (ascii "EDGEWIT_SEARCH_THREADS") (ascii "1")) _ h3 in
    let (blocks, (h5, e5)) =
      read_first (usize_setting var (ascii "EDGEWIT_DOCSTORE_CACHE_BLOCKS") (ascii "20")) _ h4 in
    let same : record {
      port = port;
      data_dir = unwrap_or (ascii "./data") (var (ascii "EDGEWIT_DATA_DIR"));
      index_memory_mb = memory;
      channel_buffer = buffer;
      search_threads = threads;
      docstore_cache_blocks = blocks;
    }
        ≡ c =
      cc h5 in
    rw (← same) (record {
      port = number_setting-Reads var parse_u16 (ascii "EDGEWIT_PORT") (ascii "9200") _ port e1;
      data_dir = refl;
      index_memory_mb =
          number_setting-Reads var parse_u64 (ascii "EDGEWIT_INDEX_MEMORY_MB") (ascii "30") _ memory
            e2;
      channel_buffer =
          number_setting-Reads var parse_u64 (ascii "EDGEWIT_CHANNEL_BUFFER") (ascii "10000") _
            buffer e3;
      search_threads =
          number_setting-Reads var parse_u64 (ascii "EDGEWIT_SEARCH_THREADS") (ascii "1") _ threads
            e4;
      docstore_cache_blocks =
          number_setting-Reads var parse_u64 (ascii "EDGEWIT_DOCSTORE_CACHE_BLOCKS") (ascii "20") _
            blocks e5;
    })

digits-le : (top n v : ℕ) (s : Text) → n ≤ top → digits 10 top n s ≡ some v → v ≤ top
unfolding digits
digits-le top n v [] le h = ground arith
digits-le top n v (c ∷ cs) le h = elim (Option-cases (digit 10 c)) [
  | inl no_digit ↦ absurd (cc (rw no_digit at h))
  | inr (d, e) ↦ ground (arith, rw e at h, digits-le top (n * 10 + d) v cs)
]

pub parse_u16-lt : (s : Text) (n : ℕ) → parse_u16 s ≡ some n → n < 2 ^ 16
unfolding parse_u16 parse_unsigned after_plus
parse_u16-lt [] n h = absurd (cc h)
parse_u16-lt (c ∷ []) n h = ground (arith, digits-le 65535 0 n (c ∷ []))
parse_u16-lt (c ∷ d ∷ ds) n h =
    ground (arith, digits-le 65535 0 n (c ∷ d ∷ ds), digits-le 65535 0 n (d ∷ ds))

pub AreRead-settings :
    (var : Text → Option Text) (c : Settings) → AreRead var c → settings var ≡ ok c
unfolding settings number_setting
AreRead-settings var c r =
    rw
      (
        r.port,
        r.index_memory_mb,
        r.channel_buffer,
        r.search_threads,
        r.docstore_cache_blocks,
        ← r.data_dir,
      )
      refl

-- ===== src/Wal/Disk.antt =====
-- The files of src/wal.rs and the standard library's `BufWriter` over the open one. A file is known
-- by the offset in its name, `{offset:016x}.wal`, and holds the bytes that the OS has taken.
use edgewit.Prelude.{
  ℕ, ◌-◌, ◌*◌, ◌≡◌, refl, Bool, true, false, List, [], ◌∷◌, ◌++◌, length, take, drop, ltb, leb,
  ◌==◌, if◌then◌else◌, arith,
}

abbrev pub Files : Type 0
Files = List (ℕ × List ℕ)

unfoldable pub contents : ℕ → Files → List ℕ
contents p [] = []
contents p ((q, bytes) ∷ fs) = if q == p then bytes else contents p fs

unfoldable pub append_to : ℕ → List ℕ → Files → Files
append_to p new [] = (p, new) ∷ []
append_to p new ((q, bytes) ∷ fs) =
    if q == p then (q, bytes ++ new) ∷ fs else (q, bytes) ∷ append_to p new fs

-- How a system call ends: it fails after the OS has taken some bytes.
pub data Outcome : Type 0 where
  done : Outcome
  failed : ℕ → Outcome

-- A `BufWriter<File>` on the file `path`, the files, and how the coming system calls end (all well
-- when the list has run out).
pub record Writer : Type 0 where
  pub path : ℕ
  pub buffer : List ℕ
  pub files : Files
  pub faults : List Outcome

-- `BufWriter::with_capacity(64 * 1024, file)`
abbrev pub capacity : ℕ
capacity = 64 * 1024

abbrev took : Writer → List ℕ → List Outcome → Writer
took w bytes faults = record w { files = append_to w.path bytes w.files; faults = faults }

-- `write_all` of the file itself
unfoldable pub os_write_as : List Outcome → List ℕ → Writer → Bool × Writer
os_write_as [] bytes w = (true, took w bytes [])
os_write_as (done ∷ fs) bytes w = (true, took w bytes fs)
os_write_as (failed k ∷ fs) bytes w = (false, took w (take k bytes) fs)

unfoldable pub os_write : List ℕ → Writer → Bool × Writer
unfolding os_write_as
os_write bytes w = os_write_as w.faults bytes w

-- `flush_buf`: after a failure the bytes that were not taken stay in the buffer. Nothing is written
-- from an empty buffer.
unfoldable pub flush_as : List Outcome → List ℕ → Writer → Bool × Writer
flush_as faults [] w = (true, w)
flush_as [] (b ∷ bs) w = (true, record (took w (b ∷ bs) []) { buffer = [] })
flush_as (done ∷ fs) (b ∷ bs) w = (true, record (took w (b ∷ bs) fs) { buffer = [] })
flush_as (failed k ∷ fs) (b ∷ bs) w =
    (false, record (took w (take k (b ∷ bs)) fs) { buffer = drop k (b ∷ bs) })

unfoldable pub flush_buf : Writer → Bool × Writer
unfolding flush_as
flush_buf w = flush_as w.faults w.buffer w

abbrev push : List ℕ → Writer → Writer
push bytes w = record w { buffer = w.buffer ++ bytes }

-- `BufWriter::write_all` where the bytes do not fit beside those in the buffer
unfoldable pub write_cold : List ℕ → Bool × Writer → Bool × Writer
unfolding os_write
write_cold bytes (false, w) = (false, w)
write_cold bytes (true, w) =
    if leb capacity (length bytes) then os_write bytes w else (true, push bytes w)

unfoldable pub write_all : List ℕ → Writer → Bool × Writer
unfolding write_cold flush_buf
write_all bytes w =
    let spare = capacity - length w.buffer in
    if ltb (length bytes) spare
    then (true, push bytes w)
    else write_cold bytes (if ltb spare (length bytes) then flush_buf w else (true, w))

-- `sync_data`, and any other call that moves no bytes
unfoldable pub sync_as : List Outcome → Writer → Bool × Writer
sync_as [] w = (true, w)
sync_as (done ∷ fs) w = (true, record w { faults = fs })
sync_as (failed k ∷ fs) w = (false, record w { faults = fs })

unfoldable pub sync_data : Writer → Bool × Writer
unfolding sync_as
sync_data w = sync_as w.faults w

-- `OpenOptions::new().create(true).append(true).open(path)` and a new `BufWriter`; the old one is
-- dropped, which flushes it.
unfoldable pub reopen : ℕ → Bool × Writer → Bool × Writer
reopen path (true, w) =
    let (_, old) = flush_buf w in
    (true, record old { path = path; buffer = []; files = append_to path [] old.files })
reopen path (false, w) = (false, w)

unfoldable pub open_append : ℕ → Writer → Bool × Writer
unfolding sync_data reopen flush_buf
open_append path w = reopen path (sync_data w)

pub contents-append_to :
    (p j : ℕ) (new : List ℕ) (fs : Files)
    → contents j (append_to p new fs) ≡ (if p == j then contents j fs ++ new else contents j fs)
unfolding contents append_to
contents-append_to p j new [] = refl
contents-append_to p j new ((q, bytes) ∷ fs) = ground (arith, contents-append_to p j new fs)

-- ===== src/Cache/Meta.antt =====
-- internal/cache/meta.go: the record beside an adapter's files that says where they came from and
-- when. Times are nanoseconds; the JSON text is a parameter.
use loraplex.Go.Fs.{Fs, at, read_file, write_file}
use loraplex.Go.Path.{join}
use loraplex.Prelude.{
  Bool, Option, ◌-◌, ltb, ◌==◌, if◌then◌else◌, some, codes, false, is_empty, ℕ, ◌*◌, none, Text,
}

abbrev pub meta_file_name : Text
meta_file_name = codes ".loraplex_meta"

-- `TTLSeconds` is an int of the configured duration, which is not negative in a cache that expires.
pub record AdapterMeta : Type 0 where
  pub origin : Text
  pub etag : Text
  pub revision : Text
  pub fetched_at : ℕ
  pub ttl_seconds : ℕ

-- `encoding/json` on this struct.
pub record MetaJson : Type 0 where
  pub marshal : AdapterMeta → Text
  pub unmarshal : Text → Option AdapterMeta

abbrev pub second : ℕ
second = 1_000_000_000

-- `time.Since(m.FetchedAt) > ttl`; a time that lies ahead is not past its ttl.
unfoldable pub is_expired : ℕ → AdapterMeta → Bool
is_expired now m =
    if m.ttl_seconds == 0 then false else ltb (m.ttl_seconds * second) (now - m.fetched_at)

unfoldable pub content_id : AdapterMeta → Text
content_id m = if is_empty m.etag then m.revision else m.etag

unfoldable pub read_meta : MetaJson → Text → Fs → Option AdapterMeta
read_meta json adapter_dir fs = elim (read_file (at (join adapter_dir meta_file_name)) fs) [
  | none ↦ none
  | some contents ↦ json.unmarshal contents
]

unfoldable pub write_meta : MetaJson → Text → AdapterMeta → ℕ → Fs → Option Fs
write_meta json adapter_dir m now fs =
    write_file (at (join adapter_dir meta_file_name)) (json.marshal m) now fs

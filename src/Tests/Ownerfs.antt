-- ===== src/Tests/Ownerfs.antt =====
-- Runs of the wrappers of the owner's file system over a small one in memory.
use mathlib.Core.List.{Memᴰ}
use some_go_foolery.Base.{
  ℕ, ◌+◌, ◌<◌, ◌≡◌, ◌⊎◌, inl, inr, refl, true, false, Option, none, some, List, [], ◌∷◌, length,
  arith,
}
use some_go_foolery.Base.Bytes.{Bytes, bytes, str_eq, has_prefix}
use some_go_foolery.Base.Dict.{Dict, lookup, insert, remove}
use some_go_foolery.Base.Paths.{clean, base, dir, join, elements, split, join_rev, split_dir}
use some_go_foolery.Base.Elements.{Name}
use some_go_foolery.Ownerfs.{Error, not_exist, eof, FileInfo, Flags, FileSystem}
use some_go_foolery.Ownerfs.Client.{Call, stat_call, session, write_call, after_calls}
use some_go_foolery.Ownerfs.Filter.{is_junk, junk_base, is_key, starts_with_any, filter_junk}
use some_go_foolery.Ownerfs.Filter.Runs.{clear_calls, after_calls-filter_junk}
use some_go_foolery.Ownerfs.Normalize.{normalize_nfc, normal_calls}
use some_go_foolery.Ownerfs.Cache.{
  normalize, StatEntry, live_stat, CachedFs, CachedFile, cached_mkdir, cached_remove_all,
  cached_rename, cached_close, cached_stat, stat_cache_ttl,
}
use some_go_foolery.Ownerfs.Cache.Runs.{Thinner}
use some_go_foolery.Ownerfs.Stack.{served, served_lem}
use some_go_foolery.Ownerfs.Cache.Fresh.{Asks, Touched, changes_are_seen}
use some_go_foolery.Ownerfs.Cache.Stale.{
  Step, ask_stat, store, becomes, step, steps, start, Gave, hits_are_recent,
}

cleaned :
    (clean (bytes "/a//b/../c/./") ≡ bytes "/a/c")
    × (clean (bytes "a/../../b") ≡ bytes "../b")
    × (clean (bytes "/..") ≡ bytes "/")
    × (clean [] ≡ bytes ".")
unfolding clean elements split str_eq join_rev
cleaned = (refl, refl, refl, refl)

parts :
    (base (bytes "/a/b/") ≡ bytes "b")
    × (dir (bytes "/a/b") ≡ bytes "/a")
    × (dir (bytes "/a") ≡ bytes "/")
    × (join (bytes "/") (bytes "x") ≡ bytes "/x")
unfolding base dir join clean split_dir elements split str_eq join_rev
parts = (refl, refl, refl, refl)

a_key : normalize (bytes "a/./b/") ≡ bytes "/a/b"
unfolding normalize clean elements split str_eq join_rev
a_key = refl

junk :
    (is_junk (bytes "/x/._a") ≡ true)
    × (is_junk (bytes "/._x/a") ≡ false)
    × (is_junk (bytes "/x/.DS_Store/") ≡ true)
unfolding is_junk junk_base is_key starts_with_any has_prefix base clean elements split str_eq
    join_rev
junk = (refl, refl, refl)

-- The clock, and a size for each name.
abbrev Memory : Type 0
Memory = ℕ × Dict ℕ

abbrev info_of : Bytes → ℕ → FileInfo
info_of name size = record { name = name; size = size; mode = 0; mod_time = 0; is_dir = false }

abbrev stat_of : Bytes → Option ℕ → Error ⊎ FileInfo
stat_of name none = inl not_exist
stat_of name (some n) = inr (info_of name n)

abbrev all_infos : Dict ℕ → List FileInfo
all_infos [] = []
all_infos ((n, v) ∷ m) = info_of n v ∷ all_infos m

abbrev memory : FileSystem
memory = record {
  World = Memory;
  File = Bytes;
  now = λ w. w.0;
  mkdir = λ n p w. (none, (w.0, insert n 0 w.1));
  open_file = λ n flag p w. (inr n, w);
  remove_all = λ n w. (none, (w.0, remove n w.1));
  rename = λ n m w. (none, w);
  stat = λ n w. (stat_of n (lookup n w.1), w);
  file_read = λ n f w. (([], some eof), w);
  file_write = λ p f w. ((length p, none), (w.0, insert f (length p) w.1));
  file_seek = λ o h f w. ((0, none), w);
  file_stat = λ f w. (stat_of f (lookup f w.1), w);
  file_readdir = λ c f w. ((all_infos w.1, none), w);
  file_close = λ f w. (none, w);
}

abbrev for_writing : Flags
for_writing = record { wronly = false; rdwr = true; creat = true; trunc = true; append = false }

abbrev saves : List Call
saves =
    session (bytes "/._a") for_writing 0 (write_call (bytes "xy") ∷ [])
    ∷ session (bytes "/a") for_writing 0 (write_call (bytes "xyz") ∷ [])
    ∷ []

after_calls-filter_junk_example :
    after_calls (filter_junk memory) saves (5, []) ≡ after_calls memory (clear_calls saves) (5, [])
after_calls-filter_junk_example = after_calls-filter_junk memory saves (5, [])

abbrev asks_twice : List Call
asks_twice = stat_call (bytes "/a") ∷ stat_call (bytes "/a") ∷ saves

abbrev empty_cache : CachedFs (filter_junk (normalize_nfc (λ n. n) memory))
empty_cache = record { inner = (5, []); stats = []; readdir = [] }

served_lem_example :
    (ds : List Call) × Thinner asks_twice ds
    × ((after_calls (served (λ n. n) memory) asks_twice empty_cache).inner
        ≡ after_calls memory (normal_calls (λ n. n) (clear_calls ds)) (5, []))
served_lem_example = served_lem (λ n. n) memory asks_twice empty_cache

sidecar-Name : Name (bytes "._a")
sidecar-Name =
    (((λ e. omega arith, (λ e. omega arith, (λ e. omega arith, tt))), λ h. cc), λ h. cc, λ h. cc)

abbrev one_entry : List FileInfo
one_entry = info_of (bytes "._a") 3 ∷ []

-- A stat of /x/a is cached.
abbrev caching : CachedFs memory
caching = record {
  inner = (10, (bytes "/x/a", 3) ∷ []);
  stats = (bytes "/x/a", record { answer = inr (info_of (bytes "a") 3); expires = 100 }) ∷ [];
  readdir = [];
}

abbrev open_a : CachedFile memory
open_a = record { file = bytes "/x/a"; name = bytes "/x/a"; writable = true }

changes_are_seen_example :
    Asks memory (bytes "/x/a") (cached_mkdir memory (bytes "/x/a") 0 caching).1
    × Asks memory (bytes "/x/a") (cached_remove_all memory (bytes "/x/a") caching).1
    × Asks memory (bytes "/x/a") (cached_rename memory (bytes "/x/a") (bytes "/b") caching).1
    × Asks memory (bytes "/x/a") (cached_rename memory (bytes "/b") (bytes "/x/a") caching).1
    × (open_a.name ≡ bytes "/x/a"
        → open_a.writable ≡ true
        → Asks memory (bytes "/x/a") (cached_close memory open_a caching).1)
changes_are_seen_example =
    changes_are_seen memory (bytes "/x/a") (bytes "/b") (bytes "/x/a") 0 open_a caching (inl refl)

apart : ¬ Touched memory (bytes "/x") (bytes "/x/a")
unfolding normalize dir clean split_dir elements split str_eq join_rev
apart (inl h) = cc
apart (inr h) = cc

cached_a :
    lookup (normalize (bytes "/x/a")) caching.stats
    ≡ some (record { answer = inr (info_of (bytes "a") 3); expires = 100 })
unfolding normalize clean elements split str_eq join_rev lookup
cached_a = refl

abbrev one_stat : List (Step memory)
one_stat = ask_stat (bytes "/a") 5 ∷ store ∷ becomes (200, []) ∷ []

abbrev kept_answer : StatEntry
kept_answer = record { answer = inr (info_of (bytes "/a") 3); expires = 95 + stat_cache_ttl }

hit :
    live_stat 200 (
      lookup
        (normalize (bytes "/a"))
        (steps memory one_stat (start memory (100, (bytes "/a", 3) ∷ []))).cache.stats)
    ≡ some kept_answer
unfolding normalize clean elements split str_eq join_rev lookup insert steps step
hit = refl

abbrev from_cache : CachedFs memory
from_cache = (steps memory one_stat (start memory (100, (bytes "/a", 3) ∷ []))).cache

-- The file is gone, and the answer is that of the cache.
hit_answer : (cached_stat memory (bytes "/a") from_cache).0 ≡ kept_answer.answer
unfolding cached_stat lookup steps step
hit_answer = rw hit refl

hits_are_recent_example :
    let r = steps memory one_stat (start memory (100, (bytes "/a", 3) ∷ [])) in
    let a = (cached_stat memory (bytes "/a") r.cache).0 in
    (a ≡ stat_of (bytes "/a") (lookup (bytes "/a") r.cache.inner.1))
    ⊎ ((v : Memory) × Memᴰ v r.past
        × (r.cache.inner.0 < v.0 + stat_cache_ttl)
        × Gave memory v (normalize (bytes "/a")) a)
hits_are_recent_example = hits_are_recent memory one_stat (100, (bytes "/a", 3) ∷ []) (bytes "/a")

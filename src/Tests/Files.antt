-- ===== src/Tests/Files.antt =====
-- Runs of the file browser, the mounts and the waits of the web service.
use some_go_foolery.Base.{
  ℕ, zero, suc, ◌+◌, ◌*◌, ◌≤◌, ◌≡◌, ◌≢◌, ◌⊎◌, refl, true, false, some, none, List, [], ◌∷◌, ◌++◌,
  map, All, inl, arith, ◌<◌,
}
use some_go_foolery.Base.Bytes.{Bytes, bytes, str_eq, contains, has_prefix}
use some_go_foolery.Base.Paths.{split, elements, print}
use some_go_foolery.Claudy.Files.{
  url_path, path_escape, path_unescape, rooted, escape_byte, is_plain,
}
use some_go_foolery.Claudy.Files.Escaping.{url_path_lem}
use some_go_foolery.Claudy.Files.Listing.{
  DavResponse, FileEntry, found_prop, list_of, parse_int, parse_uint,
}
use some_go_foolery.Claudy.Files.Listing.Names.{Row, itself, child, children, RowsOf, list_of_lem}
use some_go_foolery.Claudy.Files.Upload.Targets.{Lands, target_lem}
use some_go_foolery.Claudy.Subprocess.{Status, starting, connected}
use some_go_foolery.Claudy.Waiting.{
  poll, wait_for_status, is_up, Round, End, tries, mount_limit, mount_supervisor,
}
use some_go_foolery.Claudy.Waiting.Ends.{wait_for_status_lem}
use some_go_foolery.Claudy.Waiting.Mounting.{successes, is_mounted, mount_supervisor_lem}
use some_go_foolery.Claudy.Mounts.{
  linux, mount_path, mount_url, unmount_args, stale_drives, parse_net_use_drive, split_lines,
  words_from, trim_left,
}
use some_go_foolery.Claudy.Mounts.Unmount.{unmount_args_lem}
use some_go_foolery.Base.Int.{pos, negsuc}

escaped : url_path (bytes "a b/c?") ≡ bytes "/a%20b/c%3F"
unfolding url_path rooted split path_escape escape_byte is_plain
escaped = refl

url_path_lem_example :
    (path_unescape (url_path (bytes "a b/c?")) ≡ some (rooted (bytes "a b/c?")))
    × (split (url_path (bytes "a b/c?")) ≡ map path_escape (split (rooted (bytes "a b/c?"))))
    × All (λ c. (c ≢ b'?') × (c ≢ b'#')) (url_path (bytes "a b/c?"))
url_path_lem_example = url_path_lem (bytes "a b/c?") (omega arith)

sizes :
    (parse_int (bytes "-12") ≡ negsuc 11)
    × (parse_int (bytes "+7") ≡ pos 7)
    × (parse_int (bytes "1x") ≡ pos 0)
    × (parse_int (bytes "99999999999999999999") ≡ pos 9223372036854775807)
unfolding parse_int parse_uint
sizes = (refl, refl, refl, refl)

abbrev response : Bytes → DavResponse
response href = record { href = href; propstat = [] }

abbrev responses : List DavResponse
responses = response (bytes "/d/") ∷ response (bytes "/d/a%20b") ∷ response (bytes "/d/sub/") ∷ []

abbrev rows : List Row
rows = itself ∷ child (bytes "a b") ∷ child (bytes "sub") ∷ []

elements_d : elements (rooted (bytes "/d")) ≡ bytes "d" ∷ []
unfolding rooted elements split str_eq
elements_d = refl

responses_fit : RowsOf (elements (rooted (bytes "/d"))) rows responses
unfolding rooted elements split str_eq path_unescape found_prop
responses_fit = (refl, ((refl, inl refl), ((refl, inl refl), tt)))

list_of_lem_example :
    let l = list_of (λ s. none) (λ s. none) (bytes "/d") responses in
    (l.path ≡ print true (elements (rooted (bytes "/d"))))
    × (map (λ (e : FileEntry). e.name) l.entries ≡ children rows)
list_of_lem_example = list_of_lem (λ s. none) (λ s. none) (bytes "/d") rows responses responses_fit

target_lem_example : Lands (bytes "/d") (bytes "..")
target_lem_example = target_lem (bytes "/d") (bytes "..") (λ e. cc)

abbrev clock : ℕ → ℕ
clock i = i * 100

clock_ticks : (i : ℕ) → clock i + 100 ≤ clock (suc i)
clock_ticks i = omega arith

abbrev becomes_up : ℕ → Status
becomes_up zero = starting
becomes_up (suc i) = connected

wait_for_status_lem_example :
    let r = wait_for_status clock becomes_up is_up 0 1000 in
    ((r ≡ some true) × ((i : ℕ) × (clock i < 0 + 1000) × (is_up (becomes_up i) ≡ true)))
    ⊎ ((r ≡ some false) × ((i : ℕ) → clock i < 0 + 1000 → is_up (becomes_up i) ≡ false))
wait_for_status_lem_example =
    wait_for_status_lem clock becomes_up is_up 0 1000 clock_ticks (omega arith)

waits_for_second : wait_for_status clock becomes_up is_up 0 1000 ≡ some true
unfolding wait_for_status poll
waits_for_second = refl

-- The first mount fails, the second round mounts.
abbrev mounts_second : ℕ → Round
mounts_second zero = record { alive = true; up = true; already = false; mounts = false }
mounts_second (suc i) = record { alive = true; up = true; already = false; mounts = true }

clock_moves : (i : ℕ) → clock i + 1 ≤ clock (suc i)
clock_moves i = omega arith

mount_supervisor_lem_example :
    let r = mount_supervisor clock mounts_second 0 in
    (e : End) × (r.end ≡ some e)
    × All (λ i. (tries (mounts_second i) ≡ true) × (clock i < 0 + mount_limit)) r.tried
    × (successes mounts_second r.tried ≡ is_mounted e)
mount_supervisor_lem_example = mount_supervisor_lem clock mounts_second 0 clock_moves (omega arith)

unmount_args_lem_example :
    let addr = bytes "127.0.0.1" ++ (bytes ":" ++ bytes "8910") in
    (path : Bytes) × (mount_path linux (bytes "room") addr (bytes "1000") [] ≡ some path)
    × (unmount_args linux path ≡ bytes "mount" ∷ bytes "-u" ∷ mount_url linux addr ∷ [])
unmount_args_lem_example =
    unmount_args_lem (bytes "127.0.0.1") (bytes "8910") (bytes "1000") (bytes "room") []
      (omega arith) (omega arith) (omega arith)

abbrev net_use : Bytes
net_use = bytes "OK  Y:  x@127.0.0.1" ++ 10 ∷ bytes "OK  Z:  server"

one_stale : stale_drives net_use ≡ bytes "Y:" ∷ []
unfolding stale_drives split_lines words_from contains has_prefix
one_stale = refl

drive_found : parse_net_use_drive (bytes "Drive Y: is now connected") ≡ bytes "Y:"
unfolding parse_net_use_drive split_lines words_from trim_left has_prefix
drive_found = refl

-- ===== src/Handlers/Listed.antt =====
-- What `Ls` of crates/qftp-protocol/src/handler.rs lists.
use qftp.Prelude.{
  ℕ, suc, ◌≤◌, ◌<◌, Bytes, true, false, Option, List, [], ◌∷◌, ◌++◌, length, length-append, ltb,
  leb, nat_eq, list_eq, Result, ok, err, All, All-append, ◌≡◌, inl, inr, refl, ap, ◌∙◌, arith,
  Bool-cases, Result-cases,
}
use qftp.Protocol.Messages.{ls, ErrorResponse, Response, dir_listing, DirEntry}
use qftp.Protocol.Validate.{max_dir_entries}
use qftp.Paths.{FilePath, IoError}
use qftp.Upload.Claims.{is_upload_temp}
use qftp.Handlers.{
  Fs, handle_request, list_dir, list_entries, list_if_safe, DirRead, precedes, insert_entry,
  sort_entries, dir_entry, max_dir_scan, add_entry, read_entry, scan_entries,
}

abbrev pub IsVisible : DirEntry → Type 0
IsVisible e = is_upload_temp e.name ≡ false

-- Each entry comes before the next one, in the order of the names.
abbrev pub IsSorted : List DirEntry → Type 0
IsSorted [] = Unit {0}
IsSorted (e ∷ es) = All (λ f. precedes e.name f.name ≡ true) es × IsSorted es

-- A listing names no partial upload, is in the order of the names, and is not longer than a
-- response may be.
abbrev pub IsListing : Response → Type 0
IsListing (dir_listing entries next_cursor) =
    All IsVisible entries × IsSorted entries × (length entries ≤ max_dir_entries)
IsListing _ = Unit {0}

precedes_trans : (a b c : Bytes) → precedes a b ≡ true → precedes b c ≡ true → precedes a c ≡ true
unfolding precedes
precedes_trans [] b c h k = refl
precedes_trans (x ∷ a) [] c h k = absurd (cc)
precedes_trans (x ∷ a) (y ∷ b) [] h k = absurd (cc)
precedes_trans (x ∷ a) (y ∷ b) (z ∷ c) h k = ground (arith, h, k, precedes_trans a b c)

precedes_total : (a b : Bytes) → precedes a b ≡ false → precedes b a ≡ true
unfolding precedes
precedes_total [] b h = absurd (cc)
precedes_total (x ∷ a) [] h = refl
precedes_total (x ∷ a) (y ∷ b) h = ground (arith, h, precedes_total a b)

All-insert_entry :
    (P : DirEntry → Type 0) (e : DirEntry) (es : List DirEntry)
    → P e
    → All P es
    → All P (insert_entry e es)
unfolding insert_entry
All-insert_entry P e [] p h = (p, tt)
All-insert_entry P e (f ∷ es) p (q, h) = elim (Bool-cases (precedes e.name f.name)) [
  | inl first ↦ rw first (p, (q, h))
  | inr later ↦ rw later (q, All-insert_entry P e es p h)
]

after-all :
    (e f : DirEntry) (es : List DirEntry)
    → precedes e.name f.name ≡ true
    → All (λ g. precedes f.name g.name ≡ true) es
    → All (λ g. precedes e.name g.name ≡ true) es
after-all e f [] h k = tt
after-all e f (g ∷ es) h (k, ks) = (precedes_trans e.name f.name g.name h k, after-all e f es h ks)

insert_entry-IsSorted :
    (e : DirEntry) (es : List DirEntry) → IsSorted es → IsSorted (insert_entry e es)
unfolding insert_entry
insert_entry-IsSorted e [] h = (tt, tt)
insert_entry-IsSorted e (f ∷ es) (k, h) = elim (Bool-cases (precedes e.name f.name)) [
  | inl first ↦ rw first ((first, after-all e f es first k), (k, h))
  | inr later ↦ rw later (
    All-insert_entry (λ g. precedes f.name g.name ≡ true) e es (precedes_total e.name f.name later)
        k,
    insert_entry-IsSorted e es h,
  )
]

length-insert_entry :
    (e : DirEntry) (es : List DirEntry) → length (insert_entry e es) ≡ suc (length es)
unfolding insert_entry
length-insert_entry e [] = refl
length-insert_entry e (f ∷ es) = ground (arith, length-insert_entry e es)

sort_entries_lem :
    (es : List DirEntry)
    → All IsVisible es
    → All IsVisible (sort_entries es)
      × IsSorted (sort_entries es)
      × (length (sort_entries es) ≡ length es)
unfolding sort_entries
sort_entries_lem [] h = (tt, tt, refl)
sort_entries_lem (e ∷ es) (v, h) =
    let (visible, sorted, long) = sort_entries_lem es h in
    (
      All-insert_entry IsVisible e (sort_entries es) v visible,
      insert_entry-IsSorted e (sort_entries es) sorted,
      length-insert_entry e (sort_entries es) ∙ ap suc long,
    )

abbrev Good : List DirEntry → Type 0
Good listing = All IsVisible listing × (length listing ≤ max_dir_entries)

add_entry-IsListing :
    (further : List DirEntry → Response) (listing : List DirEntry) (entry : DirRead)
    → ((more : List DirEntry) → Good more → IsListing (further more))
    → is_upload_temp entry.name ≡ false
    → All IsVisible listing
    → length listing < max_dir_entries
    → IsListing (add_entry further listing entry)
add_entry-IsListing further listing entry k plain visible room =
    elim (Result-cases entry.metadata) [
      | inr (e, wrong) ↦ rw wrong tt
      | inl (meta, read) ↦ elim (Result-cases entry.file_type) [
        | inr (e, wrong) ↦ rw (read, wrong) tt
        | inl (kind, known) ↦
            let new = dir_entry entry.name meta kind in
            rw (read, known)
              (k (listing ++ new ∷ []) (
                All-append IsVisible listing (new ∷ []) visible (plain, tt),
                omega (arith, length-append listing (new ∷ []), room),
              ))
      ]
    ]

read_entry-IsListing :
    (further : List DirEntry → Response) (listing : List DirEntry) (r : Result IoError DirRead)
    → ((more : List DirEntry) → Good more → IsListing (further more))
    → All IsVisible listing
    → length listing < max_dir_entries
    → IsListing (read_entry further listing r)
read_entry-IsListing further listing (err e) k visible room = tt
read_entry-IsListing further listing (ok entry) k visible room =
    elim (Bool-cases (is_upload_temp entry.name)) [
      | inl partial ↦ rw partial (k listing (visible, omega (arith, room)))
      | inr plain ↦ rw plain (add_entry-IsListing further listing entry k plain visible room)
    ]

scan_entries-IsListing :
    (entries : List (Result IoError DirRead)) (scanned : ℕ) (listing : List DirEntry)
    → All IsVisible listing
    → length listing ≤ max_dir_entries
    → IsListing (scan_entries entries scanned listing)
unfolding scan_entries
scan_entries-IsListing [] scanned listing visible short =
    let (v, s, l) = sort_entries_lem listing visible in (v, s, omega (arith, l, short))
scan_entries-IsListing (entry ∷ entries) scanned listing visible short =
    elim (Bool-cases (ltb max_dir_scan (suc scanned))) [
      | inl far ↦ rw (far, scan_entries) tt
      | inr near ↦ elim (Bool-cases (leb max_dir_entries (length listing))) [
        | inl full ↦ rw (near, full, scan_entries) tt
        | inr room ↦
            rw (near, room, scan_entries)
              (read_entry-IsListing (scan_entries entries (suc scanned)) listing entry
                (λ more (v, l). scan_entries-IsListing entries (suc scanned) more v l) visible
                (ground (arith, room)))
      ]
    ]

list_entries-IsListing :
    (fs : Fs) (root : FilePath) (r : Result IoError (List (Result IoError DirRead)))
    → IsListing (list_entries fs root r)
list_entries-IsListing fs root (err e) = tt
list_entries-IsListing fs root (ok entries) = scan_entries-IsListing entries 0 [] tt (omega arith)

list_if_safe-IsListing :
    (fs : Fs) (root dir : FilePath) (r : Result ErrorResponse (Unit {0}))
    → IsListing (list_if_safe fs root dir r)
list_if_safe-IsListing fs root dir (err e) = tt
list_if_safe-IsListing fs root dir (ok u) = list_entries-IsListing fs root (fs.read_dir dir)

list_dir-IsListing :
    (fs : Fs) (root : FilePath) (r : Result ErrorResponse FilePath) → IsListing (list_dir fs root r)
list_dir-IsListing fs root (err e) = tt
list_dir-IsListing fs root (ok dir) = list_if_safe-IsListing fs root dir _

-- Whatever a directory holds, and whatever fails while it is read: a listing that goes out names no
-- partial upload, is sorted by name, and has no more entries than a response may have.
pub handle_request-IsListing :
    (fs : Fs) (root : FilePath) (path : Bytes) (cursor : Option Bytes) (cwd : FilePath)
    → IsListing (handle_request fs root (ls path cursor) cwd).0
unfolding handle_request
handle_request-IsListing fs root path cursor cwd = list_dir-IsListing fs root _

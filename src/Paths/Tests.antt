-- ===== src/Paths/Tests.antt =====
-- Walks over a small file system: /srv/a is a directory, /srv/b a link, nothing else is there.
use qftp.Prelude.{
  bytes, ◌||◌, some, [], ◌∷◌, ◌++◌, ◌≡◌, ◌↔◌, refl, ok, err, ◌==◌, nat_eq, list_eq, if◌then◌else◌,
}
use qftp.Paths.{
  FilePath, push, Stat, found, failed, Lstat, FileKind, directory_file, symbolic_link,
  kind_not_found, components, parent, starts_with,
}
use qftp.Paths.Walk.{walk_safe, walk_component, symlink_in_path}
use qftp.Paths.Walk.Lexical.{lexical_path, under, walk_safe-lexical, walk_safe-quiet}
use qftp.Paths.Walk.Symlinks.{IsClean, walk_safe-IsClean}
use qftp.Paths.Recheck.{recheck_path_no_symlinks}
use qftp.Paths.Recheck.Below.{IsFound, IsSolidFrom, recheck_path_iff}

abbrev entry : FileKind → Stat
entry k =
    found (record { kind = k; len = 0; modified = 0; mtime_nanos = 0; uid = 0; gid = 0; mode = 0 })

abbrev absent : Stat
absent = failed (record { kind = kind_not_found; text = bytes "not found" })

abbrev srv : FilePath
srv = bytes "srv" ∷ []

abbrev fs : Lstat
fs p =
    if p == srv || p == push srv (bytes "a")
    then entry directory_file
    else if p == push srv (bytes "b")
    then entry symbolic_link
    else absent

-- up and down again, to a name that is not there yet
walked :
    walk_safe fs srv (srv ++ []) (bytes "/a/../a/./new")
    ≡ ok (srv ++ (bytes "a" ∷ bytes "new" ∷ []))
unfolding walk_safe components walk_component parent starts_with
walked = refl

walk_safe-lexical_example :
    (end : FilePath) × (lexical_path [] (bytes "/a/../a/./new") ≡ some end)
    × (srv ++ (bytes "a" ∷ bytes "new" ∷ []) ≡ srv ++ end)
walk_safe-lexical_example =
    walk_safe-lexical fs srv [] (bytes "/a/../a/./new") (srv ++ (bytes "a" ∷ bytes "new" ∷ []))
      walked

walk_safe-IsClean_example : IsClean fs srv (srv ++ (bytes "a" ∷ bytes "new" ∷ []))
walk_safe-IsClean_example =
    walk_safe-IsClean fs srv (srv ++ []) (bytes "/a/../a/./new")
      (srv ++ (bytes "a" ∷ bytes "new" ∷ [])) (λ h. ([], refl, tt)) walked

abbrev nothing_there : Lstat
nothing_there p = absent

walk_safe-quiet_example :
    walk_safe nothing_there srv (srv ++ (bytes "a" ∷ [])) (bytes "../../etc")
    ≡ under srv (lexical_path (bytes "a" ∷ []) (bytes "../../etc"))
walk_safe-quiet_example =
    walk_safe-quiet nothing_there srv (bytes "a" ∷ []) (bytes "../../etc") (λ rel. refl)

-- the link is met
refused : walk_safe fs srv srv (bytes "b/c") ≡ err (symlink_in_path (push srv (bytes "b")))
unfolding walk_safe components walk_component
refused = refl

recheck_path_iff_example :
    (recheck_path_no_symlinks fs srv srv ≡ ok tt)
    × ((recheck_path_no_symlinks fs (srv ++ push [] (bytes "b")) srv ≡ ok tt)
        ↔ (IsFound (fs srv) × IsSolidFrom fs srv (push [] (bytes "b"))))
recheck_path_iff_example = recheck_path_iff fs srv [] (bytes "b")

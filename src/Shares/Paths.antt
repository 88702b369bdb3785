-- ===== src/Shares/Paths.antt =====
-- Paths of shared files as text: posixpath.normpath on relative paths, the patterns of a share,
-- and the paths that a static share covers (aird/db/shares.py, aird/core/file_operations.py).
pub mod Split
pub mod Laws
use aird.Base.{
  ℕ, Bool, true, false, not, ◌&&◌, ◌||◌, List, [], ◌∷◌, ◌++◌, map, any, eqb, if◌then◌else◌,
}
use aird.Base.Text.{Text, text_eqb, strip, is_empty, starts_with, split}
use aird.Shares.Table.{Share}

abbrev pub slash : ℕ
slash = 47

abbrev pub backslash : ℕ
backslash = 92

abbrev pub dot : Text
dot = 46 ∷ []

abbrev pub dots : Text
dots = 46 ∷ 46 ∷ []

-- `s.replace("\\", "/")`, `s.lstrip("/")` and `s.rstrip("/")`.
unfoldable pub with_slashes : Text → Text
with_slashes s = map (λ c. if eqb c backslash then slash else c) s

unfoldable pub lstrip_slashes : Text → Text
lstrip_slashes [] = []
lstrip_slashes (c ∷ cs) = let rest = lstrip_slashes cs in if eqb c slash then rest else c ∷ cs

unfoldable pub rstrip_slashes : Text → Text
rstrip_slashes [] = []
rstrip_slashes (c ∷ cs) =
    let rest = rstrip_slashes cs in if eqb c slash && is_empty rest then [] else c ∷ rest

abbrev pub is_dots : Text → Bool
is_dots comp = text_eqb comp dots

-- `new_comps[-1] == '..'`, and `new_comps.pop()`.
abbrev pub ends_in_dots : List Text → Bool
ends_in_dots [] = false
ends_in_dots (c ∷ []) = is_dots c
ends_in_dots (c ∷ d ∷ ds) = ends_in_dots (d ∷ ds)

abbrev pub popped : List Text → List Text
popped [] = []
popped (c ∷ []) = []
popped (c ∷ d ∷ ds) = c ∷ popped (d ∷ ds)

-- One component of `normpath`, where the path does not start with a slash.
unfoldable pub push_comp : List Text → Text → List Text
push_comp new_comps comp =
    if is_empty comp || text_eqb comp dot
    then new_comps
    else if not (is_dots comp) || is_empty new_comps || ends_in_dots new_comps
    then new_comps ++ comp ∷ []
    else popped new_comps

unfoldable pub norm_comps : List Text → List Text → List Text
unfolding push_comp
norm_comps new_comps [] = new_comps
norm_comps new_comps (comp ∷ comps) = norm_comps (push_comp new_comps comp) comps

unfoldable pub join_slash : List Text → Text
join_slash [] = []
join_slash (c ∷ []) = c
join_slash (c ∷ d ∷ ds) = c ++ slash ∷ join_slash (d ∷ ds)

abbrev pub or_dot : List Text → Text
or_dot [] = dot
or_dot (c ∷ cs) = join_slash (c ∷ cs)

unfoldable pub normpath : Text → Text
unfolding norm_comps split join_slash
normpath rel = or_dot (norm_comps [] (split slash rel))

unfoldable pub normalized_share_path : Text → Text
unfolding normpath with_slashes lstrip_slashes strip starts_with
normalized_share_path p =
    let s = lstrip_slashes (strip (with_slashes p)) in
    let norm = normpath s in
    if is_empty s
    then []
    else if is_empty norm || text_eqb norm dot || starts_with dots norm
    then []
    else norm

-- `matches_glob_patterns` and `filter_files_by_patterns`. `glob` is `_glob_match`.
unfoldable pub matches_glob_patterns : (Text → Text → Bool) → Text → List Text → Bool
matches_glob_patterns glob path patterns = any (λ p. glob path p) patterns

unfoldable pub should_include : (Text → Text → Bool) → List Text → List Text → Text → Bool
unfolding matches_glob_patterns
should_include glob allow_list avoid_list path =
    if not (is_empty avoid_list) && matches_glob_patterns glob path avoid_list
    then false
    else if not (is_empty allow_list)
    then matches_glob_patterns glob path allow_list
    else true

unfoldable pub filter_files : (Text → Text → Bool) → List Text → List Text → List Text → List Text
unfolding should_include
filter_files glob allow_list avoid_list [] = []
filter_files glob allow_list avoid_list (p ∷ ps) =
    let rest = filter_files glob allow_list avoid_list ps in
    if should_include glob allow_list avoid_list p then p ∷ rest else rest

-- `share_paths_cover_target`.
unfoldable pub share_paths_cover_target : List Text → Text → Bool
unfolding normalized_share_path
share_paths_cover_target paths target =
    let t = normalized_share_path target in
    if is_empty paths || is_empty target
    then false
    else any
        (λ p.
          text_eqb (normalized_share_path p) t
          || starts_with (t ++ slash ∷ []) (normalized_share_path p))
        paths

-- `_share_covers_static_path`.
unfoldable pub covers_static_path : (Text → Text → Bool) → Share → Text → Bool
unfolding filter_files should_include normalized_share_path share_paths_cover_target
covers_static_path glob share path =
    let effective = filter_files glob share.allow_list share.avoid_list share.paths in
    if not (should_include glob share.allow_list share.avoid_list path)
    then false
    else if any (λ p. text_eqb (normalized_share_path p) (normalized_share_path path)) effective
    then true
    else share_paths_cover_target effective path

-- ===== src/NameMap/Decoded.antt =====
-- name_map.rs, `decode_function_names`: a module that is laid out as the standard says gives its names.
use near_mock.Base.{
  ℕ, zero, suc, ◌+◌, ◌-◌, ◌<◌, ◌≤◌, ◌≡◌, refl, ap, subst, ◌∙◌, false, List, [], ◌∷◌, ◌++◌, Option,
  some, Bytes, arith, length, length-append, drop, get_elem?, ◌==◌, min,
}
use near_mock.Base.{ℕ_eq, bytes_Key}
use near_mock.Base.Utf8.{from_utf8_lossy}
use near_mock.NameMap.{
  Names, read_leb_u32, get_range, sections_from, sections, read_names, Search, return,
  function_names, subsections, name_bytes, custom_section, search_sections, decode_function_names,
}
use near_mock.NameMap.Layout.{
  drop-get, drop-length, drop-append, take-append, inside-append, leb32, Fits32, read_leb_u32-leb32,
  get_range-append,
}

-- The names, one after the other, and what follows them.
abbrev pub entries : Names → Bytes → Bytes
entries [] s = s
entries ((idx, name) ∷ r) s = leb32 idx ++ (leb32 (length name) ++ (name ++ entries r s))

-- Numbers that fit in 32 bits, and names that are UTF-8.
abbrev pub AllNames : Names → Type 0
AllNames [] = Unit
AllNames ((idx, name) ∷ r) =
    Fits32 idx × Fits32 (length name) × (from_utf8_lossy name ≡ name) × AllNames r

-- Sections before the one that is looked for, each with its identifier and its bytes.
abbrev pub blocks : List (ℕ × Bytes) → Bytes → Bytes
blocks [] s = s
blocks ((id, b) ∷ r) s = id ∷ (leb32 (length b) ++ (b ++ blocks r s))

abbrev pub NoneIs : ℕ → List (ℕ × Bytes) → Type 0
NoneIs n [] = Unit
NoneIs n ((id, b) ∷ r) = ((id == n) ≡ false) × Fits32 (length b) × NoneIs n r

read_names-entries :
    (ns : Names) (d s : Bytes) (p : ℕ)
    → AllNames ns
    → p ≤ length d
    → drop p d ≡ entries ns s
    → read_names (length ns) d p ≡ some ns
unfolding read_names
read_names-entries [] d s p h inside e = refl
read_names-entries ((idx, name) ∷ r) d s p (hi, hn, utf8, h) inside e =
    let p2 = p + length (leb32 idx) in
    let e2 = drop-append p d (leb32 idx) _ e in
    let inside2 = inside-append d (leb32 idx) _ p inside e in
    let p3 = p2 + length (leb32 (length name)) in
    let e3 = drop-append p2 d (leb32 (length name)) _ e2 in
    let inside3 = inside-append d (leb32 (length name)) _ p2 inside2 e2 in
    let e4 = drop-append p3 d name _ e3 in
    let inside4 = inside-append d name _ p3 inside3 e3 in
    rw
      (
        read_leb_u32-leb32 d (leb32 (length name) ++ (name ++ entries r s)) p idx hi e,
        read_leb_u32-leb32 d (name ++ entries r s) p2 (length name) hn e2,
        get_range-append d name (entries r s) p3 inside3 e3,
        read_names-entries r d s (p3 + length name) h inside4 e4,
        utf8,
        read_names,
      )
      refl

-- Where a block stands, its identifier and size are read, and the next one stands at its end.
record Block (d b s : Bytes) (p id : ℕ) : Type 0 where
  pub there : get_elem? d p ≡ some id
  pub sized : read_leb_u32 d (p + 1) ≡ some (length b, p + 1 + length (leb32 (length b)))
  pub content : drop (p + 1 + length (leb32 (length b))) d ≡ b ++ s
  pub next :
      min (p + 1 + length (leb32 (length b)) + length b) (length d)
      ≡ p + 1 + length (leb32 (length b)) + length b
  pub follows : drop (p + 1 + length (leb32 (length b)) + length b) d ≡ s
  pub inside : p + 1 + length (leb32 (length b)) + length b ≤ length d

laid_out :
    (d b s : Bytes) (p id : ℕ)
    → p ≤ length d
    → Fits32 (length b)
    → drop p d ≡ id ∷ (leb32 (length b) ++ (b ++ s))
    → Block d b s p id
laid_out d b s p id inside fits e =
    let e1 = drop-append p d (id ∷ []) _ e in
    let inside1 : p + 1 ≤ length d = inside-append d (id ∷ []) _ p inside e in
    let e2 = drop-append (p + 1) d (leb32 (length b)) _ e1 in
    let inside2 = inside-append d (leb32 (length b)) _ (p + 1) inside1 e1 in
    let inside3 = inside-append d b s (p + 1 + length (leb32 (length b))) inside2 e2 in
    record {
      there = drop-get p d id _ e;
      sized = read_leb_u32-leb32 d (b ++ s) (p + 1) (length b) fits e1;
      content = e2;
      next = omega (arith, inside3);
      follows = drop-append (p + 1 + length (leb32 (length b))) d b s e2;
      inside = inside3;
    }

-- Other subsections are skipped, and the names are read.
subsections-names :
    (others : List (ℕ × Bytes)) (rounds : ℕ) (d s : Bytes) (p size : ℕ) (ns : Names)
    → length others < rounds
    → NoneIs 1 others
    → AllNames ns
    → Fits32 (length ns)
    → Fits32 size
    → p ≤ length d
    → drop p d ≡ blocks others (1 ∷ (leb32 size ++ (leb32 (length ns) ++ entries ns s)))
    → subsections rounds d p ≡ return (some ns)
unfolding subsections function_names
subsections-names others zero d s p size ns more not_one h fits sized inside e =
    absurd (omega (arith, more))
subsections-names [] (suc rounds) d s p size ns more not_one h fits sized inside e =
    let e1 = drop-append p d (1 ∷ []) _ e in
    let inside1 : p + 1 ≤ length d = inside-append d (1 ∷ []) _ p inside e in
    let p2 = p + 1 + length (leb32 size) in
    let e2 = drop-append (p + 1) d (leb32 size) _ e1 in
    let inside2 = inside-append d (leb32 size) _ (p + 1) inside1 e1 in
    let e3 = drop-append p2 d (leb32 (length ns)) _ e2 in
    let inside3 = inside-append d (leb32 (length ns)) _ p2 inside2 e2 in
    rw
      (
        drop-get p d 1 _ e,
        read_leb_u32-leb32 d (leb32 (length ns) ++ entries ns s) (p + 1) size sized e1,
        read_leb_u32-leb32 d (entries ns s) p2 (length ns) fits e2,
        read_names-entries ns d s (p2 + length (leb32 (length ns))) h inside3 e3,
        subsections,
        function_names,
      )
      refl
subsections-names ((id, b) ∷ r) (suc rounds) d s p size ns more (other, small, not_one) h fits sized
      inside e =
    let block = laid_out d b _ p id inside small e in
    rw (block.there, block.sized, other, block.next, subsections)
      (subsections-names r rounds d s _ size ns (omega (arith, more)) not_one h fits sized
        block.inside block.follows)

length-blocks : (others : List (ℕ × Bytes)) (s : Bytes) → length others ≤ length (blocks others s)
length-blocks [] s = omega arith
length-blocks ((id, b) ∷ r) s = omega (
  arith,
  length-append (leb32 (length b)) (b ++ blocks r s),
  length-append b (blocks r s),
  length-blocks r s,
)

-- The bytes of a `name` section: its title, other subsections, and the subsection of the names.
abbrev pub subsection_bytes : List (ℕ × Bytes) → ℕ → Names → Bytes
subsection_bytes others size ns =
    blocks others (1 ∷ (leb32 size ++ (leb32 (length ns) ++ entries ns [])))

abbrev pub section_bytes : List (ℕ × Bytes) → ℕ → Names → Bytes
section_bytes others size ns = leb32 4 ++ (name_bytes ++ subsection_bytes others size ns)

custom_step :
    (d : Bytes) (o : Search)
    → read_leb_u32 d 0 ≡ some (4, 1)
    → get_range d 1 4 ≡ some name_bytes
    → subsections (length d) d 5 ≡ o
    → custom_section d ≡ o
unfolding custom_section
custom_step d o title name rest = rw (title, name, rest, custom_section) refl

search_named :
    (payload : Bytes) (r : List (ℕ × Bytes)) (o : Option Names)
    → custom_section payload ≡ return o
    → search_sections ((0, payload) ∷ r) ≡ o
unfolding search_sections
search_named payload r o e = rw (e, search_sections) refl

search_skip :
    (id : ℕ) (payload : Bytes) (r : List (ℕ × Bytes))
    → (id == 0) ≡ false
    → search_sections ((id, payload) ∷ r) ≡ search_sections r
unfolding search_sections
search_skip id payload r e = rw (e, search_sections) refl

sections_step :
    (rounds : ℕ) (d b s : Bytes) (p id : ℕ)
    → Block d b s p id
    → sections_from (suc rounds) d p
      ≡ (id, b) ∷ sections_from rounds d (p + 1 + length (leb32 (length b)) + length b)
unfolding sections_from
sections_step rounds d b s p id block =
    let start = p + 1 + length (leb32 (length b)) in
    let long : start + length b - start ≡ length b = omega arith in
    rw (block.there, block.sized, block.next, long, block.content, take-append b s, sections_from)
      refl

custom_section-names :
    (others : List (ℕ × Bytes)) (size : ℕ) (ns : Names)
    → NoneIs 1 others
    → AllNames ns
    → Fits32 (length ns)
    → Fits32 size
    → custom_section (section_bytes others size ns) ≡ return (some ns)
custom_section-names others size ns not_one h fits sized =
    let d = section_bytes others size ns in
    let inside1 : 1 ≤ length d = omega arith in
    custom_step d (return (some ns))
      (read_leb_u32-leb32 d (name_bytes ++ subsection_bytes others size ns) 0 4 (omega arith) refl)
      (get_range-append d name_bytes (subsection_bytes others size ns) 1 inside1 refl)
      (subsections-names others (length d) d [] 5 size ns
        (omega
          (arith, length-blocks others (1 ∷ (leb32 size ++ (leb32 (length ns) ++ entries ns [])))))
        not_one h fits sized (omega arith) refl)

-- Sections that are not custom ones are skipped, and the first custom one gives the names.
sections-names :
    (before : List (ℕ × Bytes)) (rounds : ℕ) (d payload s : Bytes) (p : ℕ) (ns : Names)
    → length before < rounds
    → NoneIs 0 before
    → Fits32 (length payload)
    → custom_section payload ≡ return (some ns)
    → p ≤ length d
    → drop p d ≡ blocks before (0 ∷ (leb32 (length payload) ++ (payload ++ s)))
    → search_sections (sections_from rounds d p) ≡ some ns
sections-names before zero d payload s p ns more not_zero fits named inside e =
    absurd (omega (arith, more))
sections-names [] (suc rounds) d payload s p ns more not_zero fits named inside e =
    ap search_sections
      (sections_step rounds d payload s p 0 (laid_out d payload s p 0 inside fits e))
    ∙ search_named payload _ (some ns) named
sections-names ((id, b) ∷ r) (suc rounds) d payload s p ns more (other, small, not_zero) fits named
      inside e =
    let block = laid_out d b _ p id inside small e in
    ap search_sections (sections_step rounds d b _ p id block)
    ∙ search_skip id b _ other
    ∙ sections-names r rounds d payload s _ ns (omega (arith, more)) not_zero fits named
        block.inside block.follows

-- A module: eight bytes of magic and version, sections that are not custom, a `name` section, and
-- anything after it.
abbrev pub module_bytes : Bytes → List (ℕ × Bytes) → Bytes → Bytes → Bytes
module_bytes header before payload s =
    header ++ blocks before (0 ∷ (leb32 (length payload) ++ (payload ++ s)))

-- The names of a module are read back as they are, whatever sections without the identifier 0 come before
-- its `name` section and whatever bytes after it, whatever other subsections come before that of the
-- names, if the names are UTF-8 and the sizes fit in 32 bits.
pub decode_function_names-module_bytes :
    (header s : Bytes) (before others : List (ℕ × Bytes)) (size : ℕ) (ns : Names)
    → length header ≡ 8
    → NoneIs 0 before
    → NoneIs 1 others
    → AllNames ns
    → Fits32 (length ns)
    → Fits32 size
    → Fits32 (length (section_bytes others size ns))
    → decode_function_names (module_bytes header before (section_bytes others size ns) s) ≡ some ns
unfolding decode_function_names sections
decode_function_names-module_bytes header s before others size ns eight not_zero not_one h fits
      sized whole =
    let payload = section_bytes others size ns in
    let tail = blocks before (0 ∷ (leb32 (length payload) ++ (payload ++ s))) in
    let d = header ++ tail in
    let here : drop 8 d ≡ tail =
      subst (λ n. drop n d ≡ tail) eight (drop-length d header tail refl) in
    sections-names before (length d) d payload s 8 ns
      (omega (
        arith,
        length-append header tail,
        eight,
        length-blocks before (0 ∷ (leb32 (length payload) ++ (payload ++ s))),
      ))
      not_zero whole (custom_section-names others size ns not_one h fits sized)
      (omega (arith, length-append header tail, eight)) here

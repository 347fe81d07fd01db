-- ===== src/Storage/Names.antt =====
-- Which files are migrations, and in which order (ApplyMigrations of internal/storage/migrate.go, with
-- strings.HasSuffix and sort.Strings). The order of texts by bytes is that by code points.
use Prim.Native.Char.{code}
use Prim.Native.String.append
use model_gate.Prelude.{
  ◌≡◌, refl, sym, ◌∙◌, ap, ◌↔◌, ◌⊎◌, inl, inr, Bool, true, false, not, ◌&&◌, ◌||◌, List, [], ◌∷◌,
  String, str_eq, eq_iff, eq_refl, text_append, if◌then◌else◌, ◌==◌, ltb, arith, Bool-cases,
  IsOneOf,
}

-- fs.DirEntry
pub record Entry : Type 0 where
  pub name : String
  pub is_dir : Bool

-- strings.HasSuffix
unfoldable pub has_suffix : String → String → Bool
has_suffix String.[] suffix = str_eq "" suffix
has_suffix (String.◌∷◌ c s) suffix = str_eq (String.◌∷◌ c s) suffix || has_suffix s suffix

-- `a <= b` of texts.
pub leb_text : String → String → Bool
leb_text String.[] t = true
leb_text (String.◌∷◌ c s) String.[] = false
leb_text (String.◌∷◌ c s) (String.◌∷◌ d t) =
    let later = leb_text s t in if code c == code d then later else ltb (code c) (code d)

insert : String → List String → List String
unfolding leb_text
insert s [] = s ∷ []
insert s (t ∷ ts) = let later = insert s ts in if leb_text s t then s ∷ t ∷ ts else t ∷ later

-- sort.Strings
unfoldable pub sort_strings : List String → List String
unfolding insert
sort_strings [] = []
sort_strings (s ∷ ss) = insert s (sort_strings ss)

-- The loop over the entries.
unfoldable pub sql_files : List Entry → List String
unfolding has_suffix
sql_files [] = []
sql_files (e ∷ es) =
    let later = sql_files es in
    if not e.is_dir && has_suffix e.name ".sql" then e.name ∷ later else later

-- Each is at most the next.
abbrev pub IsSorted : List String → Type 0
IsSorted [] = Unit
IsSorted (s ∷ []) = Unit
IsSorted (s ∷ t ∷ ts) = (leb_text s t ≡ true) × IsSorted (t ∷ ts)

-- The name of an entry that is no directory, and ends with `.sql`.
abbrev pub IsMigration : List Entry → String → Type 0
IsMigration [] n = ⊥
IsMigration (e ∷ es) n =
    ((n ≡ e.name) × (e.is_dir ≡ false) × ((stem : String) × (e.name ≡ text_append stem ".sql")))
    ⊎ IsMigration es n

has_suffix_self : (s : String) → has_suffix s s ≡ true
unfolding has_suffix
has_suffix_self String.[] = refl
has_suffix_self (String.◌∷◌ c s) = rw (eq_refl (String.◌∷◌ c s)) refl

has_suffix-append : (stem s : String) → has_suffix (text_append stem s) s ≡ true
unfolding has_suffix
has_suffix-append String.[] s = rw (append.nil s) (has_suffix_self s)
has_suffix-append (String.◌∷◌ c stem) s =
    rw (append.cons c stem s) (elim (Bool-cases (str_eq (String.◌∷◌ c (text_append stem s)) s)) [
      | inl e ↦ rw e refl
      | inr e ↦ rw e (has_suffix-append stem s)
    ])

has_suffix-stem :
    (s suffix : String)
    → has_suffix s suffix ≡ true
    → (stem : String) × (s ≡ text_append stem suffix)
unfolding has_suffix
has_suffix-stem String.[] suffix h = ("", (eq_iff "" suffix).0 h ∙ sym (append.nil suffix))
has_suffix-stem (String.◌∷◌ c s) suffix h = elim (Bool-cases (str_eq (String.◌∷◌ c s) suffix)) [
  | inl e ↦ ("", (eq_iff (String.◌∷◌ c s) suffix).0 e ∙ sym (append.nil suffix))
  | inr e ↦
      let (stem, same) = has_suffix-stem s suffix (rw e at h) in
      (String.◌∷◌ c stem, ap (λ x. String.◌∷◌ c x) same ∙ sym (append.cons c stem suffix))
]

sql_files_lem : (es : List Entry) (n : String) → IsOneOf (sql_files es) n ↔ IsMigration es n
unfolding sql_files
sql_files_lem [] n = (λ h. h, λ h. h)
sql_files_lem (e ∷ es) n = elim (Bool-cases e.is_dir) [
  | inl d ↦
      rw (d, sql_files)
        (
          λ h. inr ((sql_files_lem es n).0 h),
          λ h. elim h [ inl (same, file, ends) ↦ cc | inr later ↦ (sql_files_lem es n).1 later ],
        )
  | inr d ↦ elim (Bool-cases (has_suffix e.name ".sql")) [
    | inl k ↦
        rw (d, k, sql_files)
          (
            λ h. elim h [
              | inl same ↦ inl (same, refl, has_suffix-stem e.name ".sql" k)
              | inr later ↦ inr ((sql_files_lem es n).0 later)
            ],
            λ h. elim h [
              | inl (same, file, ends) ↦ inl same
              | inr later ↦ inr ((sql_files_lem es n).1 later)
            ],
          )
    | inr k ↦
        rw (d, k, sql_files)
          (
            λ h. inr ((sql_files_lem es n).0 h),
            λ h. elim h [
              | inl (same, file, (stem, ends)) ↦
                  let clash : has_suffix e.name ".sql" ≡ true =
                    ap (λ x. has_suffix x ".sql") ends ∙ has_suffix-append stem ".sql" in
                  cc
              | inr later ↦ (sql_files_lem es n).1 later
            ],
          )
  ]
]

insert_lem :
    (s : String) (ts : List String) (n : String)
    → IsOneOf (insert s ts) n ↔ ((n ≡ s) ⊎ IsOneOf ts n)
unfolding insert
insert_lem s [] n = (λ h. h, λ h. h)
insert_lem s (t ∷ ts) n = elim (Bool-cases (leb_text s t)) [
  | inl e ↦ rw (e, insert) (λ h. h, λ h. h)
  | inr e ↦
      rw (e, insert)
        (
          λ h. elim h [
            | inl same ↦ inr (inl same)
            | inr later ↦ elim ((insert_lem s ts n).0 later) [
              | inl same ↦ inl same
              | inr old ↦ inr (inr old)
            ]
          ],
          λ h. elim h [
            | inl same ↦ inr ((insert_lem s ts n).1 (inl same))
            | inr (inl same) ↦ inl same
            | inr (inr old) ↦ inr ((insert_lem s ts n).1 (inr old))
          ],
        )
]

sort_strings_lem : (ss : List String) (n : String) → IsOneOf (sort_strings ss) n ↔ IsOneOf ss n
unfolding sort_strings
sort_strings_lem [] n = (λ h. h, λ h. h)
sort_strings_lem (s ∷ ss) n =
    let (to, from) = insert_lem s (sort_strings ss) n in
    (
      λ h. elim (to h) [ inl same ↦ inl same | inr later ↦ inr ((sort_strings_lem ss n).0 later) ],
      λ h. elim h [
        | inl same ↦ from (inl same)
        | inr later ↦ from (inr ((sort_strings_lem ss n).1 later))
      ],
    )

leb_text-total : (s t : String) → leb_text s t ≡ false → leb_text t s ≡ true
unfolding leb_text
leb_text-total String.[] t h = cc
leb_text-total (String.◌∷◌ c s) String.[] h = refl
leb_text-total (String.◌∷◌ c s) (String.◌∷◌ d t) h =
    let later = leb_text-total s t in ground (arith, h, later)

-- `t` may stand in front of the list.
abbrev Leads : String → List String → Type 0
Leads t [] = Unit
Leads t (u ∷ us) = leb_text t u ≡ true

Leads-IsSorted : (t : String) (ts : List String) → Leads t ts → IsSorted ts → IsSorted (t ∷ ts)
Leads-IsSorted t [] l h = tt
Leads-IsSorted t (u ∷ us) l h = (l, h)

insert-Leads :
    (s t : String) (ts : List String) → leb_text t s ≡ true → Leads t ts → Leads t (insert s ts)
unfolding insert
insert-Leads s t [] h l = h
insert-Leads s t (u ∷ us) h l = elim (Bool-cases (leb_text s u)) [
  | inl e ↦ rw (e, insert) h
  | inr e ↦ rw (e, insert) l
]

IsSorted-tail : (t : String) (ts : List String) → IsSorted (t ∷ ts) → Leads t ts × IsSorted ts
IsSorted-tail t [] h = (tt, tt)
IsSorted-tail t (u ∷ us) h = h

insert-IsSorted : (s : String) (ts : List String) → IsSorted ts → IsSorted (insert s ts)
unfolding insert
insert-IsSorted s [] h = tt
insert-IsSorted s (t ∷ ts) h = elim (Bool-cases (leb_text s t)) [
  | inl e ↦ rw (e, insert) (e, h)
  | inr e ↦
      let (leads, sorted) = IsSorted-tail t ts h in
      rw (e, insert)
        (Leads-IsSorted t (insert s ts) (insert-Leads s t ts (leb_text-total s t e) leads)
          (insert-IsSorted s ts sorted))
]

pub sort_strings-IsSorted : (ss : List String) → IsSorted (sort_strings ss)
unfolding sort_strings
sort_strings-IsSorted [] = tt
sort_strings-IsSorted (s ∷ ss) = insert-IsSorted s (sort_strings ss) (sort_strings-IsSorted ss)

pub migrations_lem :
    (es : List Entry) (n : String) → IsOneOf (sort_strings (sql_files es)) n ↔ IsMigration es n
migrations_lem es n =
    let (to, from) = sort_strings_lem (sql_files es) n in
    let (to', from') = sql_files_lem es n in (λ h. to' (to h), λ h. from (from' h))

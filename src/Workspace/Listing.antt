-- ===== src/Workspace/Listing.antt =====
-- What a listing of a workspace has.
use Prim.Native.Nat.{ℕ, zero, suc}
use mathlib.Core.Path.{subst}
use mathlib.Core.List
use mathlib.Core.List.{append-nil, append_assoc}
use tik_tok_jam.Base.{
  ◌+◌, ◌≤◌, String, ◌≡◌, ◌⊎◌, refl, sym, ap, ◌∙◌, true, false, some, List, [], ◌∷◌, push, includes,
  length, length-push, leb→le, if◌then◌else◌, Eq-String, arith, Bool-cases, inl, inr,
}
use tik_tok_jam.Workspace.Files.{
  Entry, Folder, directory, file, other, no_more, entry, WorkspaceFile, WorkspaceListing,
  skipped_directories, max_entries, below, full, cut, listed, walk_entry, walk_folder,
  list_workspace_files,
}

abbrev pub take : {A : Type 0} → ℕ → List A → List A
take zero xs = []
take (suc n) [] = []
take (suc n) (x ∷ xs) = x ∷ take n xs

-- All the files of a folder, in the order of the walk.
abbrev mutual
  pub files_of : String → Entry → List WorkspaceFile
  files_of folder (directory name inside) =
      let within = files_in (below folder name) inside in
      if includes skipped_directories name then [] else within
  files_of folder (file name size modified_at) =
      record { path = below folder name; size = size; modified_at = modified_at } ∷ []
  files_of folder (other name) = []

  pub files_in : String → Folder → List WorkspaceFile
  files_in folder no_more = []
  files_in folder (entry e more) = List.◌++◌ (files_of folder e) (files_in folder more)

take-take :
    {A : Type 0} (n : ℕ) (xs ys : List A)
    → take n (List.◌++◌ (take n xs) ys) ≡ take n (List.◌++◌ xs ys)
take-take zero xs ys = refl
take-take (suc n) [] ys = refl
take-take (suc n) (x ∷ xs) ys = ap (λ l. x ∷ l) (take-take n xs ys)

take-full : {A : Type 0} (n : ℕ) (xs ys : List A) → length xs ≡ n → take n (List.◌++◌ xs ys) ≡ xs
take-full zero [] ys h = refl
take-full zero (x ∷ xs) ys h = absurd (omega (arith, h))
take-full (suc n) [] ys h = absurd (omega (arith, h))
take-full (suc n) (x ∷ xs) ys h = ap (λ l. x ∷ l) (take-full n xs ys (omega (arith, h)))

take-short : {A : Type 0} (n : ℕ) (xs : List A) → length xs ≤ n → take n xs ≡ xs
take-short zero [] h = refl
take-short zero (x ∷ xs) h = absurd (omega (arith, h))
take-short (suc n) [] h = refl
take-short (suc n) (x ∷ xs) h = ap (λ l. x ∷ l) (take-short n xs (omega (arith, h)))

length-take_le : {A : Type 0} (n : ℕ) (xs : List A) → length (take n xs) ≤ n
length-take_le zero xs = omega arith
length-take_le (suc n) [] = omega arith
length-take_le (suc n) (x ∷ xs) = omega (arith, length-take_le n xs)

-- A listing within the bound, which is full where it was cut.
abbrev Fits : WorkspaceListing → Type 0
Fits l = (length l.files ≤ max_entries) × (l.truncated ≡ true → length l.files ≡ max_entries)

abbrev Walks : WorkspaceListing → List WorkspaceFile → WorkspaceListing → Type 0
Walks l fs m =
    Fits m
    × (m.files ≡ take max_entries (List.◌++◌ l.files fs))
    × (m.truncated ≡ false → (l.truncated ≡ false) × (m.files ≡ List.◌++◌ l.files fs))

-- A step that a full listing stops.
stopped :
    (l : WorkspaceListing) (fs : List WorkspaceFile) → Fits l → full l ≡ true → Walks l fs (cut l)
stopped l fs fits h =
    let most : length l.files ≡ max_entries =
      omega (arith, fits.0, leb→le max_entries (length l.files) h) in
    (
      (fits.0, λ _. most),
      sym (take-full max_entries l.files fs most),
      λ whole. absurd (ground (arith, whole)),
    )

unmoved : (l : WorkspaceListing) → Fits l → Walks l [] l
unmoved l fits = (
  fits,
  sym (take-short max_entries l.files fits.0) ∙ ap (take max_entries) (sym (append-nil l.files)),
  λ whole. (whole, sym (append-nil l.files)),
)

-- One walk behind another.
chained :
    (l m n : WorkspaceListing) (fs gs : List WorkspaceFile)
    → Walks l fs m
    → Walks m gs n
    → Walks l (List.◌++◌ fs gs) n
chained l m n fs gs h k = (
  k.0,
  k.1
      ∙ ap (λ xs. take max_entries (List.◌++◌ xs gs)) h.1
      ∙ take-take max_entries (List.◌++◌ l.files fs) gs
      ∙ ap (take max_entries) (append_assoc l.files fs gs),
  λ whole.
      let later = k.2 whole in
      let earlier = h.2 later.0 in
      (earlier.0, later.1 ∙ ap (λ xs. List.◌++◌ xs gs) earlier.1 ∙ append_assoc l.files fs gs),
)

added :
    (l : WorkspaceListing) (path : String) (size modified_at : ℕ)
    → Fits l
    → full l ≡ false
    → Walks l
        (record { path = path; size = size; modified_at = modified_at } ∷ [])
        (listed path size modified_at l)
added l path size modified_at fits room =
    let new : WorkspaceFile = record { path = path; size = size; modified_at = modified_at } in
    let longer = length-push l.files new in
    let short : length l.files + 1 ≤ max_entries = ground (arith, room) in
    (
      (omega (arith, longer, short), λ cut_off. absurd (omega (arith, short, fits.1 cut_off))),
      sym (take-short max_entries (push l.files new) (omega (arith, longer, short))),
      λ whole. (whole, refl),
    )

entered :
    (folder name : String) (inside : Folder) (l : WorkspaceListing)
    → includes skipped_directories name ≡ false
    → l.truncated ≡ false
    → walk_entry folder (directory name inside) l ≡ walk_folder (below folder name) inside l
unfolding walk_entry
entered folder name inside l walked whole = ground (arith, walked, whole)

mutual
  unfolding walk_entry

  walk_entry-Walks :
      (folder : String) (e : Entry) (l : WorkspaceListing)
      → Fits l
      → full l ≡ false
      → Walks l (files_of folder e) (walk_entry folder e l)
  walk_entry-Walks folder (directory name inside) l fits room =
      let inner = walk_folder-Walks (below folder name) inside l fits in
      elim (Bool-cases (includes skipped_directories name)) [
        | inl skipped ↦ rw skipped (unmoved l fits)
        | inr walked ↦ elim (Bool-cases l.truncated) [
          | inl cut_off ↦ absurd (ground (arith, room, fits.1 cut_off))
          | inr whole ↦
              let same : files_in (below folder name) inside
                  ≡ files_of folder (directory name inside) =
                ground (arith, walked) in
              subst (λ fs. Walks l fs (walk_entry folder (directory name inside) l)) same
                (subst (Walks l (files_in (below folder name) inside))
                  (sym (entered folder name inside l walked whole)) inner)
        ]
      ]
  walk_entry-Walks folder (file name size modified_at) l fits room =
      added l (below folder name) size modified_at fits room
  walk_entry-Walks folder (other name) l fits room = unmoved l fits

  walk_folder-Walks :
      (folder : String) (f : Folder) (l : WorkspaceListing)
      → Fits l
      → Walks l (files_in folder f) (walk_folder folder f l)
  walk_folder-Walks folder no_more l fits = unmoved l fits
  walk_folder-Walks folder (entry e more) l fits = elim (Bool-cases (full l)) [
    | inl filled ↦ rw filled (stopped l (files_in folder (entry e more)) fits filled)
    | inr room ↦
        let first = walk_entry-Walks folder e l fits room in
        let after = walk_folder-Walks folder more (walk_entry folder e l) first.0 in
        rw room (
          chained l (walk_entry folder e l) (walk_folder folder more (walk_entry folder e l))
            (files_of folder e) (files_in folder more) first after)
  ]

-- A listing has the first 500 of the workspace's files, in the order of the walk and without those in
-- skipped folders; where it is not marked as cut it has all of them, and where it is marked it has 500.
pub list_workspace_files-take :
    (root : Folder)
    → let listing = list_workspace_files (some root) in
      (listing.files ≡ take max_entries (files_in "" root))
      × (((listing.truncated ≡ false) × (listing.files ≡ files_in "" root))
          ⊎ ((listing.truncated ≡ true) × (length listing.files ≡ max_entries)))
unfolding list_workspace_files
list_workspace_files-take root =
    let walked =
      walk_folder-Walks "" root (record { files = []; truncated = false })
        (omega arith, λ h. absurd (ground (arith, h))) in
    (
      walked.1,
      elim (Bool-cases (list_workspace_files (some root)).truncated) [
        | inl cut_off ↦ inr (cut_off, walked.0.1 cut_off)
        | inr whole ↦ inl (whole, (walked.2 whole).1)
      ],
    )

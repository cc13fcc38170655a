-- ===== src/Jsonconfig/Eval/Files/Reads.antt =====
-- jsonconfig/eval.go: recursiveReadJSON reads no file twice, so that reading ends.
use go.Common.{
  ℕ, zero, suc, ◌-◌, ◌≤◌, ◌<◌, ◌≡◌, ◌≢◌, refl, sym, ap, ap₂, subst, ◌∙◌, arith, Bool, true, false,
  not, ◌&&◌, ◌||◌, List, [], ◌∷◌, Option, none, some, ◌==◌, if◌then◌else◌, length, Bool-cases,
  Option-cases, inl, inr,
}
use go.Jsonconfig.{
  null, boolean, number, text, items, object, Items, no_items, item, Fields, same_key,
}
use go.Jsonconfig.Validate.{contains}
use go.Jsonconfig.Eval.{empty_path, in_file, Parser, Result, done, failed, panics, stuck, Expander}
use go.Jsonconfig.Eval.Files.{
  included, included_at, expand_file, touch_in, touches, with_pop, named_expander, env_name,
  fileobj_name, read_decoded, read_opened, read_touched, read_absolute, read_json,
  recursive_read_json, read_file,
}
use go.Jsonconfig.Eval.Files.Ends.{
  unread_in, Within, Keeps, Within-wrap, Within-Keeps, evaluate_expressions-Within,
}

same_key→eq : (a b : List ℕ) → same_key a b ≡ true → a ≡ b
same_key→eq [] [] h = refl
same_key→eq [] (y ∷ ys) h = absurd (ground (arith, h))
same_key→eq (x ∷ xs) [] h = absurd (ground (arith, h))
same_key→eq (x ∷ xs) (y ∷ ys) h = elim (Bool-cases (x == y)) [
  | inl e ↦
      let tail : same_key xs ys ≡ true = subst (λ b. (b && same_key xs ys) ≡ true) e h in
      let head : x ≡ y = ground (arith, e) in ap₂ (λ a b. a ∷ b) head (same_key→eq xs ys tail)
  | inr n ↦
      let never : false ≡ true = subst (λ b. (b && same_key xs ys) ≡ true) n h in
      absurd (ground (arith, never))
]

same_key_refl : (a : List ℕ) → same_key a a ≡ true
same_key_refl [] = refl
same_key_refl (x ∷ xs) = let e : (x == x) ≡ true = ground arith in rw (e, same_key_refl xs) refl

unread_in_more :
    (files : List (List ℕ)) (a : List ℕ) (t : List (List ℕ))
    → unread_in files (some (a ∷ t)) ≤ unread_in files (some t)
unfolding unread_in
unread_in_more [] a t = omega arith
unread_in_more (x ∷ files) a t = elim (Bool-cases (same_key a x)) [
  | inl y ↦ rw y (omega (arith, unread_in_more files a t))
  | inr n ↦ rw n (omega (arith, unread_in_more files a t))
]

-- A file that is touched now and was not is one less to read.
unread_in_less :
    (files : List (List ℕ)) (a : List ℕ) (t : List (List ℕ))
    → contains files a ≡ true
    → contains t a ≡ false
    → unread_in files (some (a ∷ t)) < unread_in files (some t)
unfolding unread_in
unread_in_less [] a t h g = absurd (ground (arith, h))
unread_in_less (x ∷ files) a t h g = elim (Bool-cases (same_key x a)) [
  | inl y ↦
      let eq = same_key→eq x a y in
      rw (eq, same_key_refl a, g) (omega (arith, unread_in_more files a t))
  | inr n ↦
      let later : contains files a ≡ true = subst (λ b. (b || contains files a) ≡ true) n h in
      let less = unread_in_less files a t later g in
      elim (Bool-cases (same_key a x)) [
        | inl y ↦ rw y (omega (arith, less))
        | inr m ↦ rw m (omega (arith, less))
      ]
]

unread_in-length : (files : List (List ℕ)) → unread_in files (some []) ≤ length files
unfolding unread_in
unread_in-length [] = omega arith
unread_in-length (x ∷ files) = omega (arith, unread_in-length files)

Within-pop :
    (files : List (List ℕ)) (n : ℕ) (r : Result Fields)
    → Within files n r
    → Within files n (with_pop r)
Within-pop files n (done a p) h = h
Within-pop files n (failed e p) h = tt
Within-pop files n panics h = tt
Within-pop files n stuck h = h

Within-mono :
    (files : List (List ℕ)) (m n : ℕ) (r : Result Fields)
    → m ≤ n
    → Within files m r
    → Within files n r
Within-mono files m n (done a p) le h = omega (arith, h, le)
Within-mono files m n (failed e p) le h = tt
Within-mono files m n panics le h = tt
Within-mono files m n stuck le h = h

Within-included :
    (files : List (List ℕ)) (n : ℕ) (r : Result Fields)
    → Within files n r
    → Within files n (included r)
Within-included files n (done a p) h = h
Within-included files n (failed e p) h = at (p.include_stack)
  where
    at : (stack : List (List ℕ)) → Within files n (included_at stack e p)
    at [] = tt
    at (path ∷ stack) = tt
Within-included files n panics h = tt
Within-included files n stuck h = h

or_expander : Option Expander → Expander → Expander
or_expander none g = g
or_expander (some f) g = f

from_some : (P : Expander → Type 0) (g f : Expander) → some g ≡ some f → P g → P f
unfolding or_expander
from_some P g f e h = subst P (ap (λ o. or_expander o g) e) h

Within-stuck :
    (files : List (List ℕ)) (n : ℕ) (r : Result Fields)
    → r ≡ stuck
    → Within files n r
    → true ≡ false
Within-stuck files n r e h = subst (λ s. Within files n s) e h

-- Reading within n unread files, of every path that is not empty.
abbrev ReadsWithin : List (List ℕ) → ℕ → (List ℕ → Parser → Result Fields) → Type 0
ReadsWithin files n read =
    (path : List ℕ) (p : Parser)
    → path ≢ []
    → unread_in files (p.touched_files) ≤ n
    → Within files n (read path p)

module _ {File : Type 0} (abs : List ℕ → Option (List ℕ)) (open_file : List ℕ → Option File)
    (decode : File → Option Fields) (expand_env_with : Expander) (find : List ℕ → Option (List ℕ))
    (registered : List ℕ → Option Expander) (files : List (List ℕ))
    (only_files : (path a : List ℕ) (f : File)
      → open_file path ≡ some f
      → abs path ≡ some a
      → contains files a ≡ true)
    (no_empty : (file : List ℕ) → find file ≢ some [])
    (env_keeps : (args : Items) (p : Parser) → Keeps p (expand_env_with args p))
    (registered_keeps : (name : List ℕ) (f : Expander)
      → registered name ≡ some f
      → (args : Items) (p : Parser) → Keeps p (f args p)) where
  expand_file-Within :
      (n : ℕ) (read : List ℕ → Parser → Result Fields)
      → ReadsWithin files n read
      → (args : Items) (p : Parser) → unread_in files (p.touched_files) ≤ n
      → Within files n (expand_file find read args p)
  unfolding expand_file
  expand_file-Within n read reads no_items p le = tt
  expand_file-Within n read reads (item null (item w rest)) p le = tt
  expand_file-Within n read reads (item (boolean b) (item w rest)) p le = tt
  expand_file-Within n read reads (item (number b) (item w rest)) p le = tt
  expand_file-Within n read reads (item (text b) (item w rest)) p le = tt
  expand_file-Within n read reads (item (items b) (item w rest)) p le = tt
  expand_file-Within n read reads (item (object b) (item w rest)) p le = tt
  expand_file-Within n read reads (item null no_items) p le = tt
  expand_file-Within n read reads (item (boolean b) no_items) p le = tt
  expand_file-Within n read reads (item (number b) no_items) p le = tt
  expand_file-Within n read reads (item (items b) no_items) p le = tt
  expand_file-Within n read reads (item (object b) no_items) p le = tt
  expand_file-Within n read reads (item (text file) no_items) p le =
      elim (Option-cases (find file)) [
        | inl e ↦ rw e tt
        | inr (path, e) ↦ rw e (
            Within-included files n (read path p)
              (reads path p (λ z. no_empty file (e ∙ ap some z)) le))
      ]

  named_expander-Within :
      (n : ℕ) (read : List ℕ → Parser → Result Fields)
      → ReadsWithin files n read
      → (name : List ℕ) (f : Expander)
      → named_expander abs open_file decode expand_env_with find registered read name ≡ some f
      → (args : Items) (p : Parser) → unread_in files (p.touched_files) ≤ n
      → Within files n (f args p)
  unfolding named_expander
  named_expander-Within n read reads name f e args p le =
      let P : Expander → Type 0 = λ g. Within files n (g args p) in
      elim (Bool-cases (same_key name env_name)) [
        | inl y ↦
            from_some P expand_env_with f
              (subst
                (λ c.
                  (if c
                    then some expand_env_with
                    else if same_key name fileobj_name
                    then some (expand_file find read)
                    else registered name)
                  ≡ some f)
                y e)
              (Within-Keeps files n p _ le (env_keeps args p))
        | inr n1 ↦
            let e1 : (if same_key name fileobj_name
                  then some (expand_file find read)
                  else registered name)
                ≡ some f =
              subst
                (λ c.
                  (if c
                    then some expand_env_with
                    else if same_key name fileobj_name
                    then some (expand_file find read)
                    else registered name)
                  ≡ some f)
                n1 e in
            elim (Bool-cases (same_key name fileobj_name)) [
              | inl y ↦
                  from_some P (expand_file find read) f
                    (subst
                      (λ c. (if c then some (expand_file find read) else registered name) ≡ some f)
                      y e1)
                    (expand_file-Within n read reads args p le)
              | inr n2 ↦ Within-Keeps files n p _ le (
                  registered_keeps name f
                    (subst
                      (λ c. (if c then some (expand_file find read) else registered name) ≡ some f)
                      n2 e1)
                    args p)
            ]
      ]

  read_opened-Within :
      (n : ℕ) (read : List ℕ → Parser → Result Fields) (path : List ℕ) (p : Parser)
      → ReadsWithin files n read
      → unread_in files (p.touched_files) ≤ n
      → Within files n (
          read_opened abs open_file decode expand_env_with find registered read path
            (open_file path)
            p)
  unfolding read_opened read_decoded
  read_opened-Within n read path p reads le = elim (Option-cases (open_file path)) [
    | inl e ↦ rw e tt
    | inr (f, e) ↦ elim (Option-cases (decode f)) [
      | inl d ↦ rw (e, d) tt
      | inr (m, d) ↦
          rw (e, d)
            (Within-wrap files n (in_file path) _ (
              evaluate_expressions-Within files n _ false [] m p
                (named_expander-Within n read reads) le))
    ]
  ]

  read_touched-Within :
      (n : ℕ) (read : List ℕ → Parser → Result Fields) (path a : List ℕ) (t : List (List ℕ))
      (p : Parser)
      → abs path ≡ some a
      → contains t a ≡ false
      → unread_in files (some t) ≤ n
      → ((m : ℕ) → m < n → ReadsWithin files m read)
      → Within files n (
          read_touched abs open_file decode expand_env_with find registered read path
            (touch_in (some t) a p))
  unfolding read_touched read_opened
  read_touched-Within n read path a t p is_abs fresh le reads =
      elim (Option-cases (open_file path)) [
        | inl e ↦ rw e tt
        | inr (f, e) ↦
            let less = unread_in_less files a t (only_files path a f e is_abs) fresh in
            let lt : n - 1 < n = omega (arith, less, le) in
            Within-pop files n _ (
              Within-mono files (n - 1) n _ (omega arith) (
                read_opened-Within (n - 1) read path
                  (record { touched_files = some (a ∷ t); include_stack = a ∷ p.include_stack })
                  (reads (n - 1) lt) (omega (arith, less, le))))
      ]

  read_json-Within :
      (n : ℕ) (read : List ℕ → Parser → Result Fields)
      → ((m : ℕ) → m < n → ReadsWithin files m read)
      → ReadsWithin files n (read_json abs open_file decode expand_env_with find registered read)
  unfolding read_json read_absolute read_touched
  read_json-Within n read reads [] p nonempty le = absurd (nonempty refl)
  read_json-Within n read reads (b ∷ path) p nonempty le = elim (Option-cases (abs (b ∷ path))) [
    | inl e ↦ rw e tt
    | inr (a, e) ↦ elim (Bool-cases (touches (p.touched_files) a)) [
      | inl y ↦ rw (e, y) tt
      | inr fresh ↦ elim (Option-cases (p.touched_files)) [
        | inl none_yet ↦ rw (e, fresh, none_yet) tt
        | inr (t, now) ↦
            let fresh' : contains t a ≡ false = subst (λ o. touches o a ≡ false) now fresh in
            let le' : unread_in files (some t) ≤ n = subst (λ o. unread_in files o ≤ n) now le in
            rw (e, fresh)
              (subst
                (λ o. Within files n (
                  read_touched abs open_file decode expand_env_with find registered read (b ∷ path)
                    (touch_in o a p)))
                (sym now) (read_touched-Within n read (b ∷ path) a t p e fresh' le' reads))
      ]
    ]
  ]

  recursive_read_json-Within :
      (fuel n : ℕ)
      → n < fuel
      → ReadsWithin files n
          (recursive_read_json abs open_file decode expand_env_with find registered fuel)
  unfolding recursive_read_json
  recursive_read_json-Within zero n lt = absurd (omega arith)
  recursive_read_json-Within (suc fuel) n lt =
      read_json-Within n _ (λ m less. recursive_read_json-Within fuel m (omega (arith, lt, less)))

  never : true ≢ false
  never h = ground (arith, h)

  read_root-Within :
      (path : List ℕ) (p : Parser)
      → unread_in files (p.touched_files) ≤ length files
      → Within files (length files) (
          recursive_read_json abs open_file decode expand_env_with find registered
            (suc (suc (length files)))
            path
            p)
  unfolding recursive_read_json read_json
  read_root-Within [] p le =
      read_opened-Within (length files) _ [] p
        (recursive_read_json-Within (suc (length files)) (length files) (omega arith)) le
  read_root-Within (b ∷ path) p le =
      recursive_read_json-Within (suc (suc (length files))) (length files) (omega arith) (b ∷ path)
        p (λ e. ground (arith, e)) le

  -- ReadFile always ends, whatever files include each other: the depth of the includes is at most
  -- the number of files, with one for the file itself and one for the reading that finds a file
  -- touched. The files that can be opened are among a list of absolute paths, ConfigFilePath
  -- never gives the empty path, and the expander of _env and the functions registered end and leave
  -- the parser as it is.
  pub read_file-ne-stuck :
      (has_hook : Bool) (path : List ℕ) (p : Parser)
      → read_file abs open_file decode expand_env_with find registered
          (suc (suc (length files)))
          has_hook
          path
          p
        ≢ stuck
  unfolding read_file
  read_file-ne-stuck has_hook path p e = elim (Bool-cases (same_key path [] && not has_hook)) [
    | inl y ↦ never (
        Within-stuck files (length files) (failed empty_path p)
          (subst
            (λ c.
              (if c
                then failed empty_path p
                else recursive_read_json abs open_file decode expand_env_with find registered
                    (suc (suc (length files))) path
                    record { touched_files = some []; include_stack = p.include_stack })
              ≡ stuck)
            y e)
          tt)
    | inr n ↦ never (
        Within-stuck files (length files) _
          (subst
            (λ c.
              (if c
                then failed empty_path p
                else recursive_read_json abs open_file decode expand_env_with find registered
                    (suc (suc (length files))) path
                    record { touched_files = some []; include_stack = p.include_stack })
              ≡ stuck)
            n e)
          (read_root-Within path record { touched_files = some []; include_stack = p.include_stack }
            (unread_in-length files)))
  ]

-- ===== src/Outputs/Whole.antt =====
-- `write_file` of cra_evidence/outputs.py leaves the whole text at its path, or the path as it was.
use cra_evidence.Prelude.{
  ℕ, Text, Bytes, true, false, not, ◌&&◌, ◌||◌, ◌==◌, List, [], ◌∷◌, ◌++◌, none, some, drop,
  is_empty→eq, length, length-append, take-append-drop, codes, text_eq, text_eq→eq, text_eq_refl,
  Result, ok, raised, output_not_written, value_error, Option, Option-cases, ◌≡◌, refl, sym, ◌∙◌,
  ap, ◌⊎◌, inl, inr, Bool-cases, arith, subst, &&_iff,
}
use cra_evidence.Outputs.{
  Content, content_bytes, is_bad_path, write_bytes, Files, put, remove, rename, Output, write_loop,
  unlink_quietly, exists, write_tmp, commit_tmp, tmp_name, then_commit, write_file,
}

pub write_loop-whole :
    (ns : List ℕ) (text : Bytes) → (write_loop ns text).1 ≡ true → (write_loop ns text).0 ≡ text
unfolding write_loop
write_loop-whole [] text h = sym (is_empty→eq text h)
write_loop-whole (n ∷ ns) [] h = refl
write_loop-whole (n ∷ ns) (c ∷ s) h = elim (Bool-cases (n == 0)) [
  | inl e ↦ let k = (rw (write_loop, e) at h) in cc
  | inr e ↦
      rw (write_loop, e)
        (rw (write_loop-whole ns (drop n (c ∷ s)) (rw (write_loop, e) at h))
          (take-append-drop n (c ∷ s)))
]

tmp_name-other : (path token : Text) → text_eq path (tmp_name path token) ≡ false
unfolding tmp_name
tmp_name-other path token = elim (Bool-cases (text_eq path (tmp_name path token))) [
  | inr e ↦ e
  | inl e ↦
      let l : length path ≡ length (path ++ (b'.' ∷ (token ++ codes ".tmp"))) =
        ap length (text_eq→eq path (tmp_name path token) e) in
      let m = length-append path (b'.' ∷ (token ++ codes ".tmp")) in absurd (omega (arith, l, m))
]

-- What a write leaves: the whole content at the path; or the path as it was, where the file could not be written; or
-- all as it was, where the content cannot be encoded or the name be opened.
pub record IsWhole (encode : Text → Option Bytes) (o : Output) (token path : Text)
    (content : Content) (fs : Files) (r : Result (Unit {0})) (gs : Files) : Type 0 where
  pub outcome :
      ((r ≡ ok tt) × (b : Bytes) × (content_bytes encode content ≡ some b) × (gs path ≡ some b))
      ⊎ ((r ≡ raised output_not_written) × (gs path ≡ fs path))
      ⊎ ((r ≡ raised value_error)
          × ((content_bytes encode content ≡ none) ⊎ (is_bad_path o (tmp_name path token) ≡ true))
          × (gs ≡ fs))
  pub others :
      (q : Text) → text_eq q path ≡ false → text_eq q (tmp_name path token) ≡ false → gs q ≡ fs q
  pub left : o.removed ≡ true → fs (tmp_name path token) ≡ none → gs (tmp_name path token) ≡ none

text_eq-sym : (s t : Text) → text_eq s t ≡ false → text_eq t s ≡ false
text_eq-sym s t h = elim (Bool-cases (text_eq t s)) [
  | inr e ↦ e
  | inl e ↦ let k = ap (λ x. text_eq s x) (text_eq→eq t s e) in let r = text_eq_refl s in cc
]

-- A failed write leaves every other file as it was, and no temporary one that can be removed.
pub unlink_quietly-other :
    (o : Output) (t q : Text) (fs : Files) → text_eq q t ≡ false → unlink_quietly o t fs q ≡ fs q
unfolding unlink_quietly remove
unlink_quietly-other o t q fs h = elim (Bool-cases o.removed) [
  | inl e ↦ rw (unlink_quietly, e, h) refl
  | inr e ↦ rw (unlink_quietly, e) refl
]

unlink_quietly-gone :
    (o : Output) (t : Text) (fs : Files) → o.removed ≡ true → unlink_quietly o t fs t ≡ none
unfolding unlink_quietly remove
unlink_quietly-gone o t fs h = rw (unlink_quietly, h, text_eq_refl t) refl

pub put-other : (t q : Text) (b : Bytes) (fs : Files) → text_eq q t ≡ false → put t b fs q ≡ fs q
unfolding put
put-other t q b fs h = rw h refl

pub put-at : (t : Text) (b : Bytes) (fs : Files) → put t b fs t ≡ some b
unfolding put
put-at t b fs = rw (text_eq_refl t) refl

pub rename-at : (t p : Text) (fs : Files) → rename t p fs p ≡ fs t
unfolding rename
rename-at t p fs = rw (text_eq_refl p) refl

rename-other :
    (t p q : Text) (fs : Files) → text_eq q p ≡ false → text_eq q t ≡ false → rename t p fs q ≡ fs q
unfolding rename
rename-other t p q fs h k = rw (h, k) refl

rename-gone : (t p : Text) (fs : Files) → text_eq t p ≡ false → rename t p fs t ≡ none
unfolding rename
rename-gone t p fs h = rw (h, text_eq_refl t) refl

pub write_tmp-bytes :
    (encode : Text → Option Bytes) (o : Output) (tmp : Text) (content : Content) (fs : Files)
    (b : Bytes)
    → content_bytes encode content ≡ some b
    → is_bad_path o tmp ≡ false
    → write_tmp encode o tmp content fs ≡ write_bytes o tmp b fs
unfolding write_tmp
write_tmp-bytes encode o tmp content fs b e n = rw (write_tmp, e, n) refl

module _ (encode : Text → Option Bytes) (o : Output) (token path : Text) (content : Content)
    (fs : Files) where
  IsDone : Result (Unit {0}) × Files → Type 0
  IsDone r = IsWhole encode o token path content fs r.0 r.1

  write_bytes-IsWhole :
      (b : Bytes)
      → content_bytes encode content ≡ some b
      → IsDone (then_commit o (tmp_name path token) path (write_bytes o (tmp_name path token) b fs))
  unfolding IsDone then_commit write_bytes commit_tmp
  write_bytes-IsWhole b code =
      let t = tmp_name path token in
      let (written, whole) = write_loop o.taken b in
      let n = tmp_name-other path token in
      let gs = put t written fs in
      let failed : (r : Result (Unit {0}) × Files)
          → r ≡ (raised output_not_written, unlink_quietly o t gs)
          → IsDone r =
        λ r e. subst IsDone (sym e) (record {
          outcome =
              inr (inl (refl, unlink_quietly-other o t path gs n ∙ put-other t path written fs n));
          others = λ q x y. unlink_quietly-other o t q gs y ∙ put-other t q written fs y;
          left = λ x y. unlink_quietly-gone o t gs x;
        }) in
      elim (Bool-cases (not o.opened || exists (fs t))) [
        | inl a ↦
            let w : write_bytes o t b fs ≡ (raised output_not_written, fs) =
              rw (write_bytes, a) refl in
            subst IsDone (sym (ap (then_commit o t path) w))
              (record { outcome = inr (inl (refl, refl)); others = λ q x y. refl; left = λ x y. y })
        | inr a ↦ elim (Bool-cases (whole && o.synced)) [
          | inr k ↦
              let w : write_bytes o t b fs ≡ (raised output_not_written, unlink_quietly o t gs) =
                rw (write_bytes, a, k) refl in
              failed (then_commit o t path (write_bytes o t b fs)) (ap (then_commit o t path) w)
          | inl k ↦
              let w : write_bytes o t b fs ≡ (ok tt, gs) = rw (write_bytes, a, k) refl in
              elim (Bool-cases o.replaced) [
                | inr c ↦
                    failed (then_commit o t path (write_bytes o t b fs))
                      (ap (then_commit o t path) w ∙ rw (then_commit, commit_tmp, c) refl)
                | inl c ↦
                    let d : then_commit o t path (write_bytes o t b fs)
                        ≡ (ok tt, rename t path gs) =
                      ap (then_commit o t path) w ∙ rw (then_commit, commit_tmp, c) refl in
                    subst IsDone (sym d) (record {
                      outcome = inl (
                        refl,
                        b,
                        code,
                        rename-at t path gs
                            ∙ put-at t written fs
                            ∙ ap some (write_loop-whole o.taken b ((&&_iff whole o.synced).0 k).0),
                      );
                      others = λ q x y. rename-other t path q gs x y ∙ put-other t q written fs y;
                      left = λ x y. rename-gone t path gs (text_eq-sym path t n);
                    })
              ]
        ]
      ]

  refused-IsWhole :
      write_tmp encode o (tmp_name path token) content fs ≡ (raised value_error, fs)
      → (content_bytes encode content ≡ none) ⊎ (is_bad_path o (tmp_name path token) ≡ true)
      → IsDone (write_file encode o token path content fs)
  unfolding IsDone write_file then_commit
  refused-IsWhole e why =
      subst IsDone (sym (ap (then_commit o (tmp_name path token) path) e))
        (record { outcome = inr (inr (refl, why, refl)); others = λ q x y. refl; left = λ x y. y })

  -- `write_file` puts the whole content at the path; or raises OutputNotWritten and leaves the path as it was; or, where
  -- the content cannot be encoded or its temporary file cannot be named, raises a ValueError and changes nothing. No
  -- other file changes, and where the host can remove files no temporary one is left.
  pub write_file-IsWhole :
      IsWhole encode o token path content fs
        (write_file encode o token path content fs).0
        (write_file encode o token path content fs).1
  unfolding IsDone write_file write_tmp
  write_file-IsWhole = elim (Option-cases (content_bytes encode content)) [
    | inl e ↦ refused-IsWhole (rw (write_tmp, e) refl) (inl e)
    | inr (b, e) ↦ elim (Bool-cases (is_bad_path o (tmp_name path token))) [
      | inl n ↦ refused-IsWhole (rw (write_tmp, e, n) refl) (inr n)
      | inr n ↦
          subst IsDone
            (sym (
              ap (then_commit o (tmp_name path token) path)
                (write_tmp-bytes encode o (tmp_name path token) content fs b e n)))
            (write_bytes-IsWhole b e)
    ]
  ]

-- ===== src/Readerutil/FakeSeeker/Positions.antt =====
-- `fakeSeeker` of readerutil/fakeseeker.go: the positions that calls of Seek and Read lead to.
use go.Common.{
  ℕ, ◌+◌, ◌^◌, ◌≤◌, ◌≡◌, refl, ap, arith, Option, none, some, List, ◌==◌, if◌then◌else◌, length,
  take, drop, drop-drop, subst, ◌<◌, ◌↔◌, Bool-cases, inl, inr, ◌∙◌,
}
use go.Readerutil.Parts.{ReadErr}
use go.Readerutil.Buffering.{Stream}
use go.Readerutil.FakeSeeker.{
  Distance, forward, backward, Whence, seek_set, seek_cur, seek_end, other, SeekErr, invalid_whence,
  negative_seek, FakeSeeker, new_fake_seeker, moved, base_of, Sought, at, refused, seek, read,
}

-- The states that calls lead to, with the offset that the seeker stands at for its user, and how
-- many bytes have been read. Of a `Read` the reader gives `n` bytes that it has.
pub data Reach (r : Stream) (size : ℕ) : ℕ → ℕ → FakeSeeker → Type 0 where
  opened : Reach r size 0 0 (new_fake_seeker r size)
  sought :
      {pos got : ℕ} {fs : FakeSeeker} (offset : Distance) (whence : Whence) {o : ℕ}
      → Reach r size pos got fs
      → (seek offset whence fs).0 ≡ at o
      → Reach r size o got (seek offset whence fs).1
  not_sought :
      {pos got : ℕ} {fs : FakeSeeker} (offset : Distance) (whence : Whence) {e : SeekErr}
      → Reach r size pos got fs
      → (seek offset whence fs).0 ≡ refused e
      → Reach r size pos got (seek offset whence fs).1
  has_read :
      {pos got : ℕ} {fs : FakeSeeker} (n : ℕ) (err : Option ReadErr) {out : List ℕ × Option ReadErr}
      → Reach r size pos got fs
      → n ≤ length fs.r.bytes
      → (read n err fs).0 ≡ some out
      → Reach r size (pos + n) (got + n) (read n err fs).1
  not_read :
      {pos got : ℕ} {fs : FakeSeeker} (n : ℕ) (err : Option ReadErr)
      → Reach r size pos got fs
      → (read n err fs).0 ≡ none
      → Reach r size pos got (read n err fs).1

-- What a distance is counted from.
abbrev pub IsBase : ℕ → ℕ → Whence → ℕ → Type 0
IsBase size pos seek_set base = base ≡ 0
IsBase size pos seek_cur base = base ≡ pos
IsBase size pos seek_end base = base ≡ size
IsBase size pos other base = ⊥

-- A forward distance ends below 2 ^ 63, and a backward one not below 0.
abbrev pub IsSum : Distance → ℕ → ℕ → Type 0
IsSum (forward n) base o = (o ≡ base + n) × (o < 2 ^ 63)
IsSum (backward n) base o = o + n ≡ base

-- The seeker holds both counts, and what is left stands behind the bytes that were read.
record Tracks (r : Stream) (size pos got : ℕ) (fs : FakeSeeker) : Type 0 where
  sized : fs.size ≡ size
  fake : fs.fake_pos ≡ pos
  real : fs.real_pos ≡ got
  left : fs.r.bytes ≡ drop got r.bytes

seek-keeps :
    (offset : Distance) (whence : Whence) (fs : FakeSeeker)
    → ((seek offset whence fs).1.r ≡ fs.r)
      × ((seek offset whence fs).1.real_pos ≡ fs.real_pos)
      × ((seek offset whence fs).1.size ≡ fs.size)
unfolding seek
seek-keeps offset whence fs = ground arith

seek-Tracks :
    {r : Stream} {size pos got : ℕ} {fs : FakeSeeker} (offset : Distance) (whence : Whence) (o : ℕ)
    → Tracks r size pos got fs
    → (seek offset whence fs).0 ≡ at o
    → Tracks r size o got (seek offset whence fs).1
unfolding seek
seek-Tracks {r} {size} {pos} {got} {fs} offset whence o t e =
    let (r1, real1, size1) = seek-keeps offset whence fs in
    record {
      sized = size1 ∙ t.sized;
      fake = ground (arith, e);
      real = real1 ∙ t.real;
      left = ap (λ s. s.bytes) r1 ∙ t.left;
    }

not_sought-Tracks :
    {r : Stream} {size pos got : ℕ} {fs : FakeSeeker} (offset : Distance) (whence : Whence)
    (x : SeekErr)
    → Tracks r size pos got fs
    → (seek offset whence fs).0 ≡ refused x
    → Tracks r size pos got (seek offset whence fs).1
unfolding seek
not_sought-Tracks {r} {size} {pos} {got} {fs} offset whence x t e =
    let (r1, real1, size1) = seek-keeps offset whence fs in
    record {
      sized = size1 ∙ t.sized;
      fake = ground (arith, e, t.fake);
      real = real1 ∙ t.real;
      left = ap (λ s. s.bytes) r1 ∙ t.left;
    }

has_read-Tracks :
    {r : Stream} {size pos got : ℕ} {fs : FakeSeeker} (n : ℕ) (err : Option ReadErr)
    (out : List ℕ × Option ReadErr)
    → Tracks r size pos got fs
    → (read n err fs).0 ≡ some out
    → Tracks r size (pos + n) (got + n) (read n err fs).1
unfolding read
has_read-Tracks {r} {size} {pos} {got} {fs} n err out t e =
    elim (Bool-cases (fs.fake_pos == fs.real_pos)) [
      | inl same ↦ rw same (record {
        sized = t.sized;
        fake = ap (λ m. m + n) t.fake;
        real = ap (λ m. m + n) t.real;
        left = ap (drop n) t.left ∙ drop-drop n got r.bytes;
      })
      | inr differ ↦ absurd (ground (arith, e, differ))
    ]

not_read-Tracks :
    {r : Stream} {size pos got : ℕ} {fs : FakeSeeker} (n : ℕ) (err : Option ReadErr)
    → Tracks r size pos got fs
    → (read n err fs).0 ≡ none
    → Tracks r size pos got (read n err fs).1
unfolding read
not_read-Tracks {r} {size} {pos} {got} {fs} n err t e =
    elim (Bool-cases (fs.fake_pos == fs.real_pos)) [
      | inl same ↦ absurd (ground (arith, e, same))
      | inr differ ↦ rw differ t
    ]

Reach-Tracks :
    {r : Stream} {size pos got : ℕ} {fs : FakeSeeker}
    → Reach r size pos got fs
    → Tracks r size pos got fs
unfolding new_fake_seeker
Reach-Tracks opened = record { sized = refl; fake = refl; real = refl; left = refl }
Reach-Tracks (sought offset whence {o} p e) = seek-Tracks offset whence o (Reach-Tracks p) e
Reach-Tracks (not_sought offset whence {e = x} p e) =
    not_sought-Tracks offset whence x (Reach-Tracks p) e
Reach-Tracks (has_read n err {out} p l e) = has_read-Tracks n err out (Reach-Tracks p) e
Reach-Tracks (not_read n err p e) = not_read-Tracks n err (Reach-Tracks p) e

moved_iff : (base o : ℕ) (offset : Distance) → (moved base offset ≡ some o) ↔ IsSum offset base o
unfolding moved
moved_iff base o (forward n) = ground arith
moved_iff base o (backward n) = ground arith

abbrev sought_of : Option ℕ → Sought
sought_of none = refused negative_seek
sought_of (some newo) = at newo

at-inj : {a b : ℕ} → at a ≡ at b → a ≡ b
at-inj {a} e = ap (λ s. elim s [ at o ↦ o | refused _ ↦ a ]) e

sought_of_iff : (m : Option ℕ) (o : ℕ) → (sought_of m ≡ at o) ↔ (m ≡ some o)
sought_of_iff none o = (λ e. absurd (ground (arith, e)), λ e. absurd (ground (arith, e)))
sought_of_iff (some p) o = (λ e. ap some (at-inj e), λ e. ap sought_of e)

counted :
    (P : ℕ → Type 0) (offset : Distance) (o b c : ℕ)
    → c ≡ b
    → P b
    → ((base : ℕ) → P base → base ≡ b)
    → (sought_of (moved c offset) ≡ at o) ↔ ((base : ℕ) × P base × IsSum offset base o)
counted P offset o b c same there only =
    let s = sought_of_iff (moved b offset) o in
    let m = moved_iff b o offset in
    rw same (
      λ e. (b, there, m.0 (s.0 e)),
      λ h. s.1 (m.1 (subst (λ base. IsSum offset base o) (only h.0 h.1) h.2)),
    )

seek-sought_of :
    (fs : FakeSeeker) (offset : Distance) (whence : Whence)
    → (seek offset whence fs).0 ≡ elim (base_of whence fs) [
      | none ↦ refused invalid_whence
      | some base ↦ sought_of (moved base offset)
    ]
unfolding seek
seek-sought_of fs offset whence = ground arith

seek_iff :
    (pos size : ℕ) (fs : FakeSeeker) (offset : Distance) (whence : Whence) (o : ℕ)
    → fs.fake_pos ≡ pos
    → fs.size ≡ size
    → ((seek offset whence fs).0 ≡ at o)
      ↔ ((base : ℕ) × IsBase size pos whence base × IsSum offset base o)
seek_iff pos size fs offset seek_set o f z =
    rw (seek-sought_of fs offset seek_set)
      (counted (λ base. base ≡ 0) offset o 0 0 refl refl (λ base e. e))
seek_iff pos size fs offset seek_cur o f z =
    rw (seek-sought_of fs offset seek_cur)
      (counted (λ base. base ≡ pos) offset o pos fs.fake_pos f refl (λ base e. e))
seek_iff pos size fs offset seek_end o f z =
    rw (seek-sought_of fs offset seek_end)
      (counted (λ base. base ≡ size) offset o size fs.size z refl (λ base e. e))
seek_iff pos size fs offset other o f z =
    rw (seek-sought_of fs offset other) (λ e. absurd (ground (arith, e)), λ h. absurd h.1)

-- In every state that calls lead to, where the last offset that `Seek` reported, with the bytes
-- read since, is `pos`, and `got` bytes have been read: a `Read` fails by itself exactly if the two differ,
-- and else gives the bytes that stand at `pos` and the reader's own error; and `Seek` reports an offset
-- exactly if that is the distance from the start, from `pos` or from the size, not negative and,
-- where it goes forward, below 2 ^ 63.
pub read-true :
    {r : Stream} {size pos got : ℕ} {fs : FakeSeeker} (n : ℕ) (err : Option ReadErr)
    (offset : Distance) (whence : Whence) (o : ℕ)
    → Reach r size pos got fs
    → ((read n err fs).0 ≡ (if pos == got then some (take n (drop pos r.bytes), err) else none))
      × (((seek offset whence fs).0 ≡ at o)
          ↔ ((base : ℕ) × IsBase size pos whence base × IsSum offset base o))
unfolding read seek
read-true {r} {size} {pos} {got} {fs} n err offset whence o p =
    let t = Reach-Tracks p in
    (ground (arith, t.left, t.fake, t.real), seek_iff pos size fs offset whence o t.fake t.sized)

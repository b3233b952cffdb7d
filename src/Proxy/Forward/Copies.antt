-- ===== src/Proxy/Forward/Copies.antt =====
-- What the two copies of a forwarded connection carry, along any schedule.
use redoxide.Common.{
  ◌≡◌, refl, sym, ◌∙◌, Bool, true, false, ◌&&◌, Bytes, List, [], ◌∷◌, ◌++◌, append_assoc,
  append-nil, Option, none, some, take, drop, take-append-drop, if◌then◌else◌,
}
use redoxide.Proxy.Forward.{
  Copy, CopyEvent, fill, flush, close, fail, copy_step, copy_open, Direction, up, down, Transfer,
  Join, joined, broken, moving, join, advance, join_loop, is_empty,
}

-- A direction has lost nothing and reordered nothing of what it is to carry, and is closed only
-- when all of it is written.
pub record Carries (all : Bytes) (c : Copy) : Type 0 where
  pub kept : c.written ++ (c.held ++ c.unread) ≡ all
  pub done : c.closed ≡ true → c.written ≡ all

is_empty-eq : (s : Bytes) → is_empty s ≡ true → s ≡ []
is_empty-eq [] h = refl
is_empty-eq (x ∷ xs) h = cc

abbrev Carried : Bytes → Option Copy → Type 0
Carried all none = Unit
Carried all (some c) = Carries all c

copy_open-Carried :
    (all : Bytes) (e : CopyEvent) (c : Copy)
    → c.closed ≡ false
    → Carries all c
    → Carried all (copy_open e c)
unfolding copy_open
copy_open-Carried all (fill n) c o v = record {
  kept =
      rw (append_assoc c.held (take n c.unread) (drop n c.unread), take-append-drop n c.unread)
        v.kept;
  done = λ h. cc;
}
copy_open-Carried all (flush n) c o v = record {
  kept =
      rw
        (
          append_assoc c.written (take n c.held) (drop n c.held ++ c.unread),
          ← append_assoc (take n c.held) (drop n c.held) c.unread,
          take-append-drop n c.held,
        )
        v.kept;
  done = λ h. cc;
}
copy_open-Carried all close c o v = record {
  kept = v.kept;
  done = λ h. whole c.unread c.held h v.kept;
}
  where
    whole :
        (u d : Bytes)
        → is_empty u && is_empty d ≡ true
        → c.written ++ (d ++ u) ≡ all
        → c.written ≡ all
    whole [] [] h k = sym (append-nil c.written) ∙ k
    whole [] (x ∷ xs) h k = cc
    whole (x ∷ xs) d h k = cc
copy_open-Carried all fail c o v = tt

copy_step-Carried :
    (all : Bytes) (e : CopyEvent) (c : Copy) → Carries all c → Carried all (copy_step e c)
unfolding copy_step
copy_step-Carried all e c v = split c.closed refl
  where
    split : (b : Bool) → c.closed ≡ b → Carried all (if b then some c else copy_open e c)
    split true p = v
    split false p = copy_open-Carried all e c p v

-- Both directions carry what they are to.
pub record Sound (sent server : Bytes) (t : Transfer) : Type 0 where
  pub upward : Carries sent t.upload
  pub downward : Carries server t.download

-- A join says of its directions that they are through only where both are.
abbrev pub Joins : Bytes → Bytes → Join → Type 0
Joins sent server (joined t) =
    Sound sent server t × (t.upload.closed ≡ true) × (t.download.closed ≡ true)
Joins sent server (broken t) = Sound sent server t
Joins sent server (moving t) = Sound sent server t

join-Joins :
    (sent server : Bytes) (rest : Transfer → Join) (t : Transfer)
    → Sound sent server t
    → Joins sent server (rest t)
    → Joins sent server (join rest t)
unfolding join
join-Joins sent server rest t s k = split t.upload.closed t.download.closed refl refl
  where
    split :
        (a b : Bool)
        → t.upload.closed ≡ a
        → t.download.closed ≡ b
        → Joins sent server (if a && b then joined t else rest t)
    split true true p q = (s, p, q)
    split true false p q = k
    split false b p q = k

advance_up-Joins :
    (sent server : Bytes) (rest : Transfer → Join) (t : Transfer) (o : Option Copy)
    → Sound sent server t
    → Carried sent o
    → ((t' : Transfer) → Sound sent server t' → Joins sent server (rest t'))
    → Joins sent server (advance rest up o t)
unfolding advance
advance_up-Joins sent server rest t none s c k = s
advance_up-Joins sent server rest t (some x) s c k =
    let s' : Sound sent server (record t { upload = x }) = record {
      upward = c;
      downward = s.downward;
    } in
    join-Joins sent server rest _ s' (k _ s')

advance_down-Joins :
    (sent server : Bytes) (rest : Transfer → Join) (t : Transfer) (o : Option Copy)
    → Sound sent server t
    → Carried server o
    → ((t' : Transfer) → Sound sent server t' → Joins sent server (rest t'))
    → Joins sent server (advance rest down o t)
unfolding advance
advance_down-Joins sent server rest t none s c k = s
advance_down-Joins sent server rest t (some x) s c k =
    let s' : Sound sent server (record t { download = x }) = record {
      upward = s.upward;
      downward = c;
    } in
    join-Joins sent server rest _ s' (k _ s')

pub join_loop-Joins :
    (sent server : Bytes) (es : List (Direction × CopyEvent)) (t : Transfer)
    → Sound sent server t
    → Joins sent server (join_loop es t)
unfolding join_loop
join_loop-Joins sent server [] t s = s
join_loop-Joins sent server ((up, e) ∷ es) t s =
    advance_up-Joins sent server _ t (copy_step e t.upload) s
      (copy_step-Carried sent e t.upload s.upward) (λ t' s'. join_loop-Joins sent server es t' s')
join_loop-Joins sent server ((down, e) ∷ es) t s =
    advance_down-Joins sent server _ t (copy_step e t.download) s
      (copy_step-Carried server e t.download s.downward)
      (λ t' s'. join_loop-Joins sent server es t' s')

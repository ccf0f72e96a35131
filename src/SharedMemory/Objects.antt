-- ===== src/SharedMemory/Objects.antt =====
-- A system of named objects that meets the laws: objects by numbers, and the number that stands
-- under the name.
use linuxapp.Common.{
  ℕ, ◌+◌, ◌==◌, Bool, if◌then◌else◌, Option, none, some, List, [], ◌∷◌, ◌≡◌, ◌⊎◌, inl, inr, refl,
  arith, true, false, sym, ap, ◌∙◌,
}
use linuxapp.SharedMemory.Named.{Shm, IsWorking, IsContained, resized}

pub record Objects : Type 0 where
  pub current : Option ℕ
  pub count : ℕ
  pub bytes : ℕ → List ℕ

abbrev pub put : (ℕ → List ℕ) → ℕ → List ℕ → ℕ → List ℕ
put bytes o new p = if p == o then new else bytes p

abbrev pub first_byte : ℕ → List ℕ → List ℕ
first_byte v [] = []
first_byte v (b ∷ rest) = v ∷ rest

-- The name's object, emptied if that is asked for, or a new one.
abbrev pub open_object : Bool → Objects → Option ℕ → ℕ × Objects
open_object truncating s (some o) =
    (o, record s { bytes = put s.bytes o (if truncating then [] else s.bytes o) })
open_object truncating s none = (
  s.count,
  record { current = some s.count; count = s.count + 1; bytes = put s.bytes s.count [] },
)

abbrev pub objects : Shm
objects = record {
  State = Objects;
  Object = ℕ;
  named = λ s. s.current;
  contents = λ o s. s.bytes o;
  shm_open = λ truncating s. some (open_object truncating s s.current);
  mmap = λ n o s. some s;
  ftruncate = λ n o s. some (record s { bytes = put s.bytes o (resized n (s.bytes o)) });
  store = λ o v s. record s { bytes = put s.bytes o (first_byte v (s.bytes o)) };
  shm_unlink = λ s. record s { current = none };
}

put_same : (bytes : ℕ → List ℕ) (o : ℕ) (new : List ℕ) → put bytes o new o ≡ new
put_same bytes o new = ground arith

put_any :
    (bytes : ℕ → List ℕ) (o p : ℕ) (new : List ℕ)
    → (put bytes o new p ≡ bytes p) ⊎ ((p ≡ o) × (put bytes o new p ≡ new))
put_any bytes o p new = ground arith

open_any :
    (truncating : Bool) (s t : Objects) (o p : ℕ) (c : Option ℕ)
    → open_object truncating s c ≡ (o, t)
    → (t.bytes p ≡ s.bytes p) ⊎ (t.bytes p ≡ [])
open_any true s t o p (some q) e =
    let bytes : t.bytes ≡ put s.bytes q [] = cc in
    rw bytes (elim (put_any s.bytes q p []) [ inl same ↦ inl same | inr (_, new) ↦ inr new ])
open_any false s t o p (some q) e =
    let bytes : t.bytes ≡ put s.bytes q (s.bytes q) = cc in
    rw bytes (elim (put_any s.bytes q p (s.bytes q)) [
      | inl same ↦ inl same
      | inr (it, new) ↦ inl (new ∙ ap s.bytes (sym it))
    ])
open_any truncating s t o p none e =
    let bytes : t.bytes ≡ put s.bytes s.count [] = cc in
    rw bytes (elim (put_any s.bytes s.count p []) [ inl same ↦ inl same | inr (_, new) ↦ inr new ])

ftruncate_any :
    (n o p : ℕ) (s : Objects)
    → let new = put s.bytes o (resized n (s.bytes o)) in
      (new p ≡ s.bytes p) ⊎ (new p ≡ resized n (s.bytes p))
ftruncate_any n o p s = elim (put_any s.bytes o p (resized n (s.bytes o))) [
  | inl same ↦ inl same
  | inr (it, new) ↦ inr (new ∙ ap (λ q. resized n (s.bytes q)) (sym it))
]

pub objects-IsWorking : IsWorking objects
objects-IsWorking = record {
  opened = λ truncating s o e. (
    (open_object truncating s (some o)).1,
    ap (λ c. some (open_object truncating s c)) e,
    e,
    put_same s.bytes o (if truncating then [] else s.bytes o),
  );
  created = λ truncating s e. (
    s.count,
    (open_object truncating s none).1,
    ap (λ c. some (open_object truncating s c)) e,
    refl,
    put_same s.bytes s.count [],
  );
  mapped = λ n o s. (s, refl, refl, refl);
  truncated = λ n o s. (
    record s { bytes = put s.bytes o (resized n (s.bytes o)) },
    refl,
    refl,
    put_same s.bytes o (resized n (s.bytes o)),
  );
  stored =
      λ o s v b rest e. (refl, put_same s.bytes o (first_byte v (s.bytes o)) ∙ ap (first_byte v) e);
  unlinked = λ s o. (refl, refl);
}

after_ftruncate :
    (n o : ℕ) (s t : Objects)
    → objects.ftruncate n o s ≡ some t
    → t.bytes ≡ put s.bytes o (resized n (s.bytes o))
after_ftruncate n o s t e = cc

pub objects-IsContained : IsContained objects
objects-IsContained = record {
  open_any = λ truncating s t o p e. open_any truncating s t o p s.current cc;
  mmap_any = λ n o p s t e. cc;
  ftruncate_any = λ n o p s t e. rw (after_ftruncate n o s t e) (ftruncate_any n o p s);
  unlink_any = λ s p. refl;
}

-- ===== src/Fifo/Upper/Names.antt =====
-- What fifo/doc/client.c and server.c assume of pipes under names, and a directory that meets it.
use linuxapp.Common.{
  ℕ, ◌==◌, Bool, true, false, if◌then◌else◌, Option, none, some, ◌≡◌, ◌≢◌, refl, ap, Bool-cases,
  inl, inr, ==_iff,
}

-- SERVER_FIFO_NAME, and CLIENT_FIFO_NAME with a process's number in it.
pub data Name : Type 0 where
  server_fifo : Name
  client_fifo : ℕ → Name

-- `none` is an error of mkfifo; `opens` tells whether open gives a descriptor once it returns.
pub record Names : Type 1 where
  pub State : Type 0
  pub exists : Name → State → Bool
  pub mkfifo : Name → State → Option State
  pub opens : Name → State → Bool
  pub unlink : Name → State → State

-- A name is made once, opened while it is there, and gone when it is unlinked; other names stay.
pub record IsDirectory (D : Names) : Type 0 where
  pub made :
      (n : Name) (s : D.State)
      → D.exists n s ≡ false
      → (t : D.State) × (D.mkfifo n s ≡ some t)
        × (D.exists n t ≡ true)
        × ((m : Name) → m ≢ n → D.exists m t ≡ D.exists m s)
  pub made_before : (n : Name) (s : D.State) → D.exists n s ≡ true → D.mkfifo n s ≡ none
  pub opened : (n : Name) (s : D.State) → D.opens n s ≡ D.exists n s
  pub unlinked : (n : Name) (s : D.State) → D.exists n (D.unlink n s) ≡ false
  pub unlinked_other : (n m : Name) (s : D.State) → m ≢ n → D.exists m (D.unlink n s) ≡ D.exists m s

abbrev is_same : Name → Name → Bool
is_same server_fifo server_fifo = true
is_same (client_fifo p) (client_fifo q) = p == q
is_same _ _ = false

is_same_lem : (n m : Name) → is_same n m ≡ true → n ≡ m
is_same_lem server_fifo server_fifo e = refl
is_same_lem (client_fifo p) (client_fifo q) e = ap client_fifo ((==_iff p q).0 e)
is_same_lem server_fifo (client_fifo q) e = cc
is_same_lem (client_fifo p) server_fifo e = cc

is_same_refl : (n : Name) → is_same n n ≡ true
is_same_refl server_fifo = refl
is_same_refl (client_fifo p) = (==_iff p p).1 refl

other : (n m : Name) → m ≢ n → is_same m n ≡ false
other n m apart = elim (Bool-cases (is_same m n)) [
  | inl e ↦ absurd (apart (is_same_lem m n e))
  | inr e ↦ e
]

abbrev with_name : Name → Bool → (Name → Bool) → Name → Bool
with_name n b there m = if is_same m n then b else there m

with_self : (n : Name) (b : Bool) (there : Name → Bool) → with_name n b there n ≡ b
with_self n b there = rw (is_same_refl n) refl

with_other : (n m : Name) (b : Bool) (there : Name → Bool) → m ≢ n → with_name n b there m ≡ there m
with_other n m b there apart = rw (other n m apart) refl

-- The directory as the test of what is in it.
abbrev pub directory : Names
directory = record {
  State = Name → Bool;
  exists = λ n there. there n;
  mkfifo = λ n there. if there n then none else some (with_name n true there);
  opens = λ n there. there n;
  unlink = λ n there. with_name n false there;
}

pub directory-IsDirectory : IsDirectory directory
directory-IsDirectory = record {
  made = λ n there free. (
    with_name n true there,
    rw free refl,
    with_self n true there,
    λ m apart. with_other n m true there apart,
  );
  made_before = λ n there old. rw old refl;
  opened = λ n there. refl;
  unlinked = λ n there. with_self n false there;
  unlinked_other = λ n m there apart. with_other n m false there apart;
}

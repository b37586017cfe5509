-- ===== src/Tests/Queues.antt =====
-- Parcels as lists of items.
use vr_admin.Prelude.{
  ℕ, refl, inl, inr, Bool, false, Bool-cases, Option, none, List, [], ◌∷◌, ◌++◌, ℤ, pos, minus_one,
}
use vr_admin.CString.{Bytes, strcmp}
use vr_admin.CString.Compare.{strcmp_iff}
use vr_admin.Binder.Platform.{Parcels, ParcelLaws, Item, token, string, int, binder}

abbrev Queue : Type 0
Queue = List (Item ℕ)

unfoldable pub token_read : Bytes → Queue → Bool × Queue
unfolding strcmp
token_read t (token u ∷ xs) = (strcmp u t, xs)
token_read t xs = (false, xs)

unfoldable pub text_read : Queue → Bytes × Queue
text_read (string s ∷ xs) = (s, xs)
text_read xs = ([], xs)

unfoldable pub number_read : Queue → ℤ × Queue
number_read (int n ∷ xs) = (n, xs)
number_read xs = (pos 0, xs)

unfoldable pub event_read : Queue → Option ℕ × Queue
event_read (binder e ∷ xs) = (e, xs)
event_read xs = (none, xs)

abbrev pub queues : Parcels
queues = record {
  Parcel = Queue;
  Event = ℕ;
  empty = [];
  write_token = λ t p. p ++ (token t ∷ []);
  write_string = λ s p. p ++ (string s ∷ []);
  write_int = λ n p. p ++ (int n ∷ []);
  write_binder = λ e p. p ++ (binder e ∷ []);
  check_interface = token_read;
  read_string = text_read;
  read_int = number_read;
  read_binder = event_read;
  first_call = 1;
  permission_denied = minus_one;
}

unfoldable pub queue_laws : ParcelLaws queues
unfolding token_read text_read number_read event_read
queue_laws = record {
  items = λ p. p;
  items-empty = refl;
  items-token = λ t p. refl;
  items-string = λ s p. refl;
  items-int = λ n p. refl;
  items-binder = λ e p. refl;
  token-same = λ t p xs e. rw e ((strcmp_iff t t).1 refl, refl);
  token-other = λ t u p xs e ne. elim (Bool-cases (strcmp u t)) [
    | inl h ↦ absurd (ne ((strcmp_iff u t).0 h))
    | inr h ↦ rw e h
  ];
  string-read = λ s p xs e. rw e (refl, refl);
  int-read = λ n p xs e. rw e (refl, refl);
  binder-read = λ b p xs e. rw e (refl, refl);
  denied = λ e. cc;
}

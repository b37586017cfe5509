-- ===== src/XmlDatabase/Resources/Accounts.antt =====
-- An account of documents and strings, and what a run of the parser makes of it.
use vr_admin.Prelude.{ℕ, zero, suc, ◌≡◌, refl, Option, none, some, [], ◌∷◌, ◌++◌}
use vr_admin.CString.{Bytes}
use vr_admin.XmlDatabase.Resources.{
  Resource, document, root_version, item_version, item_content, acquire, release, Trace, item_trace,
}

-- How many of each are held.
pub record Account : Type 0 where
  pub documents : ℕ
  pub root_versions : ℕ
  pub item_versions : ℕ
  pub item_contents : ℕ

abbrev pub no_resources : Account
no_resources = record { documents = 0; root_versions = 0; item_versions = 0; item_contents = 0 }

abbrev pub take_one : Resource → Account → Account
take_one document a = record a { documents = suc a.documents }
take_one root_version a = record a { root_versions = suc a.root_versions }
take_one item_version a = record a { item_versions = suc a.item_versions }
take_one item_content a = record a { item_contents = suc a.item_contents }

abbrev give_document : ℕ → Account → Option Account
give_document zero a = none
give_document (suc n) a = some (record a { documents = n })

abbrev give_root_version : ℕ → Account → Option Account
give_root_version zero a = none
give_root_version (suc n) a = some (record a { root_versions = n })

abbrev give_item_version : ℕ → Account → Option Account
give_item_version zero a = none
give_item_version (suc n) a = some (record a { item_versions = n })

abbrev give_item_content : ℕ → Account → Option Account
give_item_content zero a = none
give_item_content (suc n) a = some (record a { item_contents = n })

-- To give back what is not held is an error.
abbrev pub give_one : Resource → Account → Option Account
give_one document a = give_document a.documents a
give_one root_version a = give_root_version a.root_versions a
give_one item_version a = give_item_version a.item_versions a
give_one item_content a = give_item_content a.item_contents a

abbrev pub then_replay : Option Account → (Account → Option Account) → Option Account
then_replay none k = none
then_replay (some a) k = k a

unfoldable pub replay : Trace → Account → Option Account
replay [] a = some a
replay (acquire r ∷ t) a = replay t (take_one r a)
replay (release r ∷ t) a = then_replay (give_one r a) (replay t)

pub replay-append :
    (s t : Trace) (a : Account) → replay (s ++ t) a ≡ then_replay (replay s a) (replay t)
unfolding replay
replay-append [] t a = refl
replay-append (acquire r ∷ s) t a = replay-append s t (take_one r a)
replay-append (release r ∷ s) t a = given (give_one r a) (replay-append s t)
  where
    given :
        (got : Option Account)
        → ((b : Account) → replay (s ++ t) b ≡ then_replay (replay s b) (replay t))
        → then_replay got (replay (s ++ t)) ≡ then_replay (then_replay got (replay s)) (replay t)
    given none h = refl
    given (some b) h = h b

pub replay-item_trace :
    (pro val : Option Bytes) (a : Account) → replay (item_trace pro val) a ≡ some a
unfolding replay
replay-item_trace none none a = refl
replay-item_trace none (some v) a = refl
replay-item_trace (some p) none a = refl
replay-item_trace (some p) (some v) a = refl

-- A trace that leads from one account to another.
abbrev pub Leads : Account → Account → Option Trace → Type 0
Leads a b none = Unit {0}
Leads a b (some t) = replay t a ≡ some b

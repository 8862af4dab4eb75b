-- ===== src/Credentials/Tests.antt =====
-- The theorems of Credentials/ at a concrete directory.
use slimproxy.Text.Order.{text_before}
use slimproxy.Ordering.{sort_by}
use slimproxy.Text.{trim_space}
use slimproxy.Text.Split.{is_filled}
use slimproxy.Base.{◌≡◌, refl, true, false, Option, none, some, List, [], ◌∷◌, ◌++◌, any, All}
use slimproxy.Text.{Text, codes, text_eq}
use slimproxy.Credentials.Store.{
  Credential, Raw, Entry, Lib, one, ambiguous, removed, last_usable, recoverable, remove, list_dir,
  find,
}
use slimproxy.Credentials.Spared.{Owns, spared, remove_lem}

abbrev raw_of : Text → Option Raw
raw_of [] = none
raw_of (c ∷ s) = some (record {
  type_name = codes "claude";
  email = c ∷ s;
  expired_at = codes "2026";
  refreshed_at = [];
  is_disabled = false;
})

abbrev plain_lib : Lib
plain_lib = record {
  equal_fold = λ s t. text_eq s t;
  unmarshal = λ s. raw_of s;
  parse = λ layout s. some 9000000000000;
  join = λ name. codes "auth/" ++ name;
}

abbrev folder : List Entry
folder =
    record { entry_name = codes "b.json"; is_dir = false; content = some (codes "me@x") }
    ∷ record { entry_name = codes "a.json"; is_dir = false; content = some (codes "me@x") }
    ∷ record { entry_name = codes "bad.json"; is_dir = false; content = some [] }
    ∷ record { entry_name = codes "notes.txt"; is_dir = false; content = none }
    ∷ []

abbrev alone : List Entry
alone =
    record { entry_name = codes "b.json"; is_dir = false; content = some (codes "me@x") }
    ∷ record { entry_name = codes "bad.json"; is_dir = false; content = some [] }
    ∷ []

refuses_last : remove plain_lib (λ file. true) alone (codes "b") false 5 ≡ last_usable
unfolding remove is_filled trim_space sort_by text_eq text_before
refuses_last = refl

is_forced : remove plain_lib (λ file. true) alone (codes "b") true 5 ≡ removed (codes "auth/b.json")
unfolding remove is_filled trim_space sort_by text_eq text_before
is_forced = refl

same_account :
    find plain_lib (list_dir plain_lib folder) (codes "me@x")
    ≡ ambiguous (codes "a.json" ∷ codes "b.json" ∷ [])
unfolding find is_filled trim_space list_dir sort_by text_eq text_before
same_account = refl

goes : remove plain_lib (λ file. true) folder (codes " a ") false 5 ≡ removed (codes "auth/a.json")
unfolding remove is_filled trim_space sort_by text_eq text_before
goes = refl

some_left : any (λ c. recoverable 5 c) (list_dir plain_lib folder) ≡ true
unfolding list_dir sort_by text_eq is_filled text_before recoverable trim_space
some_left = refl

own_files : All (λ d. Owns (list_dir plain_lib folder) d) (list_dir plain_lib folder)
unfolding Owns list_dir sort_by text_eq is_filled text_before trim_space
own_files = (
  ((λ e. refl), ((λ e. absurd (cc e)), ((λ e. absurd (cc e)), tt))),
  (
    ((λ e. absurd (cc e)), ((λ e. refl), ((λ e. absurd (cc e)), tt))),
    (((λ e. absurd (cc e)), ((λ e. absurd (cc e)), ((λ e. refl), tt))), tt),
  ),
)

remove_lem_example :
    (target : Credential) × (find plain_lib (list_dir plain_lib folder) (codes " a ") ≡ one target)
    × (target.file ≡ codes "auth/a.json")
    × (any (λ c. spared 5 target c) (list_dir plain_lib folder) ≡ true)
remove_lem_example =
    remove_lem plain_lib (λ file. true) folder (codes " a ") 5 (codes "auth/a.json") own_files
      some_left goes

-- ===== src/Value.antt =====
-- The values of a job's state: what Python's `dict[str, Any]` holds, JSON data. A number is a whole
-- number of the unit at hand; the code stores counters, and times in milliseconds.
use avtomatika.Prelude.{
  ℕ, ◌≡◌, refl, ap, String, Bool, true, false, not, Option, none, some, List, [], ◌∷◌, str_eq, ◌==◌,
}
use avtomatika.Dict
use avtomatika.Dict.{Dict}

-- The values of the key "status". Most are constants of the package rxon, which are told apart only;
-- the others are written out in the code.
pub data Status : Type 0 where
  pending running waiting_for_worker waiting_for_parallel waiting_for_human : Status
  waiting_for_sub_job awaiting_retry finished failed error quarantined cancelled : Status

mutual
  pub data Value : Type 0 where
    null : Value
    boolean : Bool → Value
    num : ℕ → Value
    text : String → Value
    state : Status → Value
    obj : Entries → Value
    arr : Elements → Value

  pub data Entries : Type 0 where
    no_entries : Entries
    entry : String → Value → Entries → Entries

  pub data Elements : Type 0 where
    no_elements : Elements
    element : Value → Elements → Elements

abbrev pub Job : Type 0
Job = Dict Value

abbrev pub to_dict : Entries → Dict Value
to_dict no_entries = []
to_dict (entry k v fs) = (k, v) ∷ to_dict fs

abbrev pub from_dict : Dict Value → Entries
from_dict [] = no_entries
from_dict ((k, v) ∷ d) = entry k v (from_dict d)

pub to_dict-from_dict : (d : Dict Value) → to_dict (from_dict d) ≡ d
to_dict-from_dict [] = refl
to_dict-from_dict ((k, v) ∷ d) = ap (λ (r : Dict Value). (k, v) ∷ r) (to_dict-from_dict d)

abbrev to_texts : Elements → List String
to_texts no_elements = []
to_texts (element (text s) xs) = s ∷ to_texts xs
to_texts (element _ xs) = to_texts xs

abbrev pub from_texts : List String → Elements
from_texts [] = no_elements
from_texts (s ∷ xs) = element (text s) (from_texts xs)

pub to_texts-from_texts : (xs : List String) → to_texts (from_texts xs) ≡ xs
to_texts-from_texts [] = refl
to_texts-from_texts (s ∷ xs) = ap (λ (r : List String). s ∷ r) (to_texts-from_texts xs)

-- `bool(v)`
abbrev pub truthy : Value → Bool
truthy null = false
truthy (boolean b) = b
truthy (num n) = not (n == 0)
truthy (text s) = not (str_eq s "")
truthy (state s) = true
truthy (arr no_elements) = false
truthy (arr (element _ _)) = true
truthy (obj no_entries) = false
truthy (obj (entry _ _ _)) = true

-- The dict that an entry holds; `{}` where it is missing or no dict.
abbrev pub dict_of : Option Value → Dict Value
dict_of (some (obj fs)) = to_dict fs
dict_of _ = []

-- The texts of the list that an entry holds; `[]` where it is missing or no list.
abbrev pub texts_of : Option Value → List String
texts_of (some (arr xs)) = to_texts xs
texts_of _ = []

-- The number that an entry holds, or the default where it is missing or no number.
abbrev pub num_or : ℕ → Option Value → ℕ
num_or n (some (num m)) = m
num_or n _ = n

-- The text that an entry holds, if it holds one.
abbrev pub text_of : Option Value → Option String
text_of (some (text s)) = some s
text_of _ = none

-- The status that an entry holds, if it holds one.
abbrev pub status_of : Option Value → Option Status
status_of (some (state s)) = some s
status_of _ = none

-- `isinstance(v, int)`, with the number; `True` is 1.
abbrev pub as_int : Value → Option ℕ
as_int (num n) = some n
as_int (boolean true) = some 1
as_int (boolean false) = some 0
as_int _ = none

-- `d.update(new)`
unfoldable pub update : Dict Value → Dict Value → Dict Value
update d [] = d
update d ((k, v) ∷ new) = update (Dict.put k v d) new

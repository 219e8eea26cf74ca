-- ===== src/Http/Headers.antt =====
-- The `std::map<std::string, std::string, CaseInsensitiveLess>` of HttpRequest and HttpResponse: the
-- entries in the order of `strcasecmp`, which is the order in which `dump` writes them.
pub mod Laws
use reyao.Common.{Bool, true, false, not, ◌&&◌, Option, none, some, List, [], ◌∷◌, if◌then◌else◌}
use reyao.Common.Bytes.{Bytes}
use reyao.Util.{case_less}

abbrev pub StrMap : Type 0
StrMap = List (Bytes × Bytes)

-- `headers_[key] = val`. A key that is there in another case keeps its spelling.
unfoldable pub insert : Bytes → Bytes → StrMap → StrMap
insert key val [] = (key, val) ∷ []
insert key val ((k, v) ∷ m) =
    if case_less key k
    then (key, val) ∷ (k, v) ∷ m
    else if case_less k key
    then (k, v) ∷ insert key val m
    else (k, val) ∷ m

-- `find`: the entry that is neither less nor greater than the key.
unfoldable pub lookup : Bytes → StrMap → Option Bytes
lookup key [] = none
lookup key ((k, v) ∷ m) =
    if not (case_less key k) && not (case_less k key) then some v else lookup key m

unfoldable pub erase : Bytes → StrMap → StrMap
erase key [] = []
erase key ((k, v) ∷ m) =
    if not (case_less key k) && not (case_less k key) then m else (k, v) ∷ erase key m

-- The result of the getters, which name the kind of entry in the text for a missing one.
unfoldable pub get_or_text : Bytes → Bytes → StrMap → Bytes
unfolding lookup
get_or_text text key m = elim (lookup key m) [ none ↦ text | some v ↦ v ]

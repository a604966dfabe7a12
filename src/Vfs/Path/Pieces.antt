-- ===== src/Vfs/Path/Pieces.antt =====
-- The pieces of a path between its separators, described without `strtok_r`.
use mathlib.Core.List.{append-nil, append_assoc}
use os.Prelude.{
  ◌≡◌, ◌≢◌, refl, sym, ap, ◌∙◌, Bool, true, false, not, List, [], ◌∷◌, ◌++◌, if◌then◌else◌, ◌==◌,
}
use os.Libk.Token.Laws.{Only, Lacks, Token}
use os.Vfs.Path.{Bytes, slash}

abbrev pub close : Bytes → List Bytes
close [] = []
close (c ∷ s) = (c ∷ s) ∷ []

-- the pieces of `s` behind the bytes `cur` of the first one
unfoldable pub pieces_from : Bytes → Bytes → List Bytes
pieces_from cur [] = close cur
pieces_from cur (d ∷ s) =
    let next = pieces_from [] s in
    let more = pieces_from (cur ++ d ∷ []) s in if d == slash then close cur ++ next else more

abbrev pub pieces : Bytes → List Bytes
pieces s = pieces_from [] s

unfoldable pub open_from : Bool → Bytes → Bool
open_from b [] = b
open_from b (d ∷ s) = open_from (not (d == slash)) s

-- whether the last piece has no separator behind it
abbrev pub is_open : Bytes → Bool
is_open s = open_from false s

pub pieces-lead : (lead x : Bytes) → Only slash lead → pieces (lead ++ x) ≡ pieces x
unfolding pieces_from
pieces-lead [] x o = refl
pieces-lead (d ∷ lead) x (e, o) = rw e (pieces-lead lead x o)

pub is_open-lead : (lead x : Bytes) → Only slash lead → is_open (lead ++ x) ≡ is_open x
unfolding open_from
is_open-lead [] x o = refl
is_open-lead (d ∷ lead) x (e, o) = rw e (is_open-lead lead x o)

pieces_from-Lacks :
    (cur tok x : Bytes) → Lacks slash tok → pieces_from cur (tok ++ x) ≡ pieces_from (cur ++ tok) x
unfolding pieces_from
pieces_from-Lacks cur [] x l = rw append-nil refl
pieces_from-Lacks cur (d ∷ tok) x (e, l) = rw e (
    pieces_from-Lacks (cur ++ d ∷ []) tok x l
    ∙ ap (λ c. pieces_from c x) (append_assoc cur (d ∷ []) tok))

close-Token : (tok : Bytes) → tok ≢ [] → close tok ≡ tok ∷ []
close-Token [] h = absurd (h refl)
close-Token (c ∷ s) h = refl

pub pieces-next :
    (tok rest : Bytes) → Token slash tok → pieces (tok ++ slash ∷ rest) ≡ tok ∷ pieces rest
pieces-next tok rest (n, l) =
    pieces_from-Lacks [] tok (slash ∷ rest) l
    ∙ (unfold pieces_from in ap (λ c. c ++ pieces rest) (close-Token tok n))

pub pieces-last : (tok : Bytes) → Token slash tok → pieces tok ≡ tok ∷ []
pieces-last tok (n, l) =
    ap pieces (sym (append-nil tok))
    ∙ pieces_from-Lacks [] tok [] l
    ∙ (unfold pieces_from in close-Token tok n)

open_from-next : (b : Bool) (tok rest : Bytes) → open_from b (tok ++ slash ∷ rest) ≡ is_open rest
unfolding open_from
open_from-next b [] rest = refl
open_from-next b (d ∷ tok) rest = open_from-next (not (d == slash)) tok rest

pub is_open-next : (tok rest : Bytes) → is_open (tok ++ slash ∷ rest) ≡ is_open rest
is_open-next tok rest = open_from-next false tok rest

open_from-true : (tok : Bytes) → Lacks slash tok → open_from true tok ≡ true
unfolding open_from
open_from-true [] l = refl
open_from-true (d ∷ tok) (e, l) = rw e (open_from-true tok l)

pub is_open-last : (tok : Bytes) → Token slash tok → is_open tok ≡ true
unfolding open_from
is_open-last [] (n, l) = absurd (n refl)
is_open-last (d ∷ tok) (n, (e, l)) = rw e (open_from-true tok l)

-- no token, no piece
pub pieces-Only : (s : Bytes) → Only slash s → pieces s ≡ []
pieces-Only s o = ap pieces (sym (append-nil s)) ∙ pieces-lead s [] o ∙ (unfold pieces_from in refl)

pub is_open-Only : (s : Bytes) → Only slash s → is_open s ≡ false
is_open-Only s o =
    ap is_open (sym (append-nil s)) ∙ is_open-lead s [] o ∙ (unfold open_from in refl)

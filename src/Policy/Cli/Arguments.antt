-- ===== src/Policy/Cli/Arguments.antt =====
-- `resolve` on a written command line, against the calls that it stands for.
use b_browser.Prelude.{
  Option, ◌||◌, ap, ◌∙◌, arith, text_eq, Bool, false, List, Str, [], chars, refl, some, ◌++◌, ◌∷◌,
  ◌≡◌,
}
use b_browser.Prelude.Eq.{◌==◌, contains}
use b_browser.Prelude.Text.{split_once}
use b_browser.Policy.Precedence.{
  Layer, default, user, local_admin, enterprise, layer_eq, name, ResolvedValue, Resolver, new, set,
  resolve,
}
use b_browser.Policy.Precedence.Resolution.{Setting, set_all}
use b_browser.Policy.Cli.{parse_layer, collect_locks, set_parsed, set_pair, scan, run_resolve}

-- The parser of layers reads what `name` prints.
pub parse_layer-name : (l : Layer) → parse_layer (name l) ≡ some l
unfolding parse_layer name
parse_layer-name default = refl
parse_layer-name user = refl
parse_layer-name local_admin = refl
parse_layer-name enterprise = refl

-- `--set <layer>=<value>` for each pair.
abbrev pub set_args : List (Layer × Str) → List Str → List Str
set_args [] rest = rest
set_args ((l, v) ∷ ss) rest = chars "--set" ∷ (name l ++ (chars "=" ++ v)) ∷ set_args ss rest

-- `--lock <layer>` for each layer.
abbrev pub lock_args : List Layer → List Str
lock_args [] = []
lock_args (l ∷ ls) = chars "--lock" ∷ name l ∷ lock_args ls

-- The calls of `set` that the pairs stand for.
abbrev pub settings : Str → List Layer → List (Layer × Str) → List Setting
settings key locks [] = []
settings key locks ((l, v) ∷ ss) =
    record { key = key; layer = l; value = v; locked = contains locks l } ∷ settings key locks ss

split-name : (l : Layer) (v : Str) → split_once b'=' (name l ++ (chars "=" ++ v)) ≡ some (name l, v)
unfolding name
split-name default v = refl
split-name user v = refl
split-name local_admin v = refl
split-name enterprise v = refl

-- A written pair is no flag.
pair_no_lock : (l : Layer) (v : Str) → ((name l ++ (chars "=" ++ v)) == chars "--lock") ≡ false
unfolding name
pair_no_lock default v = refl
pair_no_lock user v = refl
pair_no_lock local_admin v = refl
pair_no_lock enterprise v = refl

abbrev is_flag : Str → Bool
is_flag s = s == chars "--lock" || (s == chars "--key" || s == chars "--set")

name_no_flag : (l : Layer) → is_flag (name l) ≡ false
unfolding name
name_no_flag default = refl
name_no_flag user = refl
name_no_flag local_admin = refl
name_no_flag enterprise = refl

collect_skip :
    (a : Str) (rest : List Str)
    → (a == chars "--lock") ≡ false
    → collect_locks (a ∷ rest) ≡ collect_locks rest
unfolding collect_locks
collect_skip a rest h = rw h

collect_lock :
    (l : Layer) (rest : List Str)
    → collect_locks (chars "--lock" ∷ name l ∷ rest) ≡ l ∷ collect_locks rest
unfolding collect_locks
collect_lock l rest =
    cc (parse_layer-name l, collect_skip (name l) rest (ground (arith, name_no_flag l)))

collect-lock_args : (ls : List Layer) → collect_locks (lock_args ls) ≡ ls
unfolding collect_locks
collect-lock_args [] = refl
collect-lock_args (l ∷ ls) = collect_lock l (lock_args ls) ∙ ap (λ t. l ∷ t) (collect-lock_args ls)

collect-set_args :
    (ss : List (Layer × Str)) (ls : List Layer) → collect_locks (set_args ss (lock_args ls)) ≡ ls
collect-set_args [] ls = collect-lock_args ls
collect-set_args ((l, v) ∷ ss) ls =
    collect_skip (chars "--set") ((name l ++ (chars "=" ++ v)) ∷ set_args ss (lock_args ls)) refl
    ∙ collect_skip (name l ++ (chars "=" ++ v)) (set_args ss (lock_args ls)) (pair_no_lock l v)
    ∙ collect-set_args ss ls

-- After `--key` stands a flag or nothing, so a key spelled `--lock` locks no layer.
collect-key :
    (key : Str) (ss : List (Layer × Str)) (ls : List Layer)
    → collect_locks (chars "--key" ∷ key ∷ set_args ss (lock_args ls)) ≡ ls
collect-key key ss ls =
    collect_skip (chars "--key") (key ∷ set_args ss (lock_args ls)) refl
    ∙ no_layer key ss ls
    ∙ collect-set_args ss ls
  where
    no_layer :
        (key : Str) (ss : List (Layer × Str)) (ls : List Layer)
        → collect_locks (key ∷ set_args ss (lock_args ls))
          ≡ collect_locks (set_args ss (lock_args ls))
    no_layer key [] [] = unfold collect_locks in ground arith
    no_layer key [] (l ∷ ls) = unfold collect_locks in ground arith
    no_layer key ((l, v) ∷ ss) ls = unfold collect_locks in ground arith

scan_skip :
    (locks : List Layer) (a : Str) (rest : List Str) (key : Str) (r : Resolver)
    → is_flag a ≡ false
    → scan locks (a ∷ rest) key r ≡ scan locks rest key r
unfolding scan
scan_skip locks a [] key r h = ground arith
scan_skip locks a (b ∷ rest) key r h = ground arith

scan-lock_args :
    (locks ls : List Layer) (key : Str) (r : Resolver) → scan locks (lock_args ls) key r ≡ (key, r)
unfolding scan
scan-lock_args locks [] key r = refl
scan-lock_args locks (l ∷ ls) key r =
    scan_skip locks (name l) (lock_args ls) key r (name_no_flag l) ∙ scan-lock_args locks ls key r

scan-set_args :
    (locks ls : List Layer) (ss : List (Layer × Str)) (key : Str) (r : Resolver)
    → scan locks (set_args ss (lock_args ls)) key r ≡ (key, set_all r (settings key locks ss))
unfolding scan set_all
scan-set_args locks ls [] key r = scan-lock_args locks ls key r
scan-set_args locks ls ((l, v) ∷ ss) key r =
    ap (λ p. scan locks (set_args ss (lock_args ls)) key (set_pair locks key p r)) (split-name l v)
    ∙ ap (λ o. scan locks (set_args ss (lock_args ls)) key (set_parsed locks key v o r))
        (parse_layer-name l)
    ∙ scan-set_args locks ls ss key (set r key l v (contains locks l))

-- `resolve --key k` with any `--set` pairs and then any `--lock` layers prints what `resolve`
-- returns for `k` after the corresponding calls of `set` on a new resolver, in their order, each
-- locked exactly if its layer is among the `--lock` arguments.
pub run_resolve_lem :
    (key : Str) (ss : List (Layer × Str)) (ls : List Layer)
    → run_resolve (chars "--key" ∷ key ∷ set_args ss (lock_args ls))
      ≡ (key, resolve (set_all new (settings key ls ss)) key)
unfolding run_resolve
run_resolve_lem key ss ls =
    ap (λ locks. answer (scan locks (chars "--key" ∷ key ∷ set_args ss (lock_args ls)) [] new))
      (collect-key key ss ls)
    ∙ ap answer (scan-set_args ls ls ss key new)
  where
    answer : Str × Resolver → Str × Option ResolvedValue
    answer (k, r) = (k, resolve r k)

-- ===== src/Control/Words.antt =====
-- internal/socket/socket.go: how a command line with a name is read.
use gosupervisor.Prelude.{
  ℕ, ◌≡◌, refl, true, false, [], ◌∷◌, ◌++◌, arith, Text, codes, text_eq, is_space,
}
use gosupervisor.Manager.{ProcessManager}
use gosupervisor.Control.{
  World, fields, glue, is_valid_name, second_word, start_command, stop_command, restart_command,
}
use gosupervisor.Control.Dispatch.{dispatch, handle_words}

-- Without blanks.
abbrev pub IsSolid : Text → Type 0
IsSolid [] = Unit
IsSolid (c ∷ s) = (is_space c ≡ false) × IsSolid s

fields-word : (c : ℕ) (s : Text) → IsSolid (c ∷ s) → fields (c ∷ s) ≡ (c ∷ s) ∷ []
unfolding fields glue
fields-word c [] h = rw h.0 refl
fields-word c (d ∷ s) h = rw (h.0, fields-word d s h.1) (rw h.1.0 refl)

pub fields-two :
    (c : ℕ) (s : Text) (d : ℕ) (t : Text)
    → IsSolid (c ∷ s)
    → IsSolid (d ∷ t)
    → fields ((c ∷ s) ++ 32 ∷ d ∷ t) ≡ (c ∷ s) ∷ (d ∷ t) ∷ []
unfolding fields glue
fields-two c [] d t h k = rw (h.0, fields-word d t k) refl
fields-two c (e ∷ s) d t h k = rw (h.0, fields-two e s d t h.1 k) (rw h.1.0 refl)

module _ (world : World) (name : Text) (pm : ProcessManager)
    (valid : is_valid_name name ≡ true) where
  named : text_eq name [] ≡ false
  named = let v = valid in unfold is_valid_name in ground (arith, v)

  -- Its guards let the name through.
  passed :
      (cmd : Text)
      → handle_words world (cmd ∷ name ∷ []) pm ≡ dispatch world cmd (cmd ∷ name ∷ []) name pm
  unfolding handle_words second_word
  passed cmd = ground (arith, valid)

  pub start_words : handle_words world (codes "start" ∷ name ∷ []) pm ≡ start_command world name pm
  unfolding dispatch text_eq
  start_words = passed (codes "start")

  pub stop_words : handle_words world (codes "stop" ∷ name ∷ []) pm ≡ stop_command world name pm
  unfolding dispatch text_eq
  stop_words = passed (codes "stop")

  pub restart_words :
      handle_words world (codes "restart" ∷ name ∷ []) pm ≡ restart_command world name pm
  unfolding dispatch text_eq
  restart_words = passed (codes "restart")

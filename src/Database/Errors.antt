-- ===== src/Database/Errors.antt =====
-- The errors of internal/data: sentinels, errors.New and fmt.Errorf with %w.
use pbuf_registry.Prelude.{ℕ, String, Bool, true, false}

pub data Error : Type 0 where
  -- the driver's error for a statement that was refused or could not be run
  refused : Error
  -- pgx.ErrNoRows
  no_rows : Error
  -- data.ErrTagNotFound, data.ErrPermissionNotFound, data.ErrUserNotFound
  tag_not_found permission_not_found user_not_found : Error
  -- jwt.ErrTokenInvalid, jwt.ErrWrongContext and middleware.ErrPermissionDenied
  token_invalid wrong_context permission_denied : Error
  -- a nil pointer that is dereferenced: the panic ends the call
  nil_dereference : Error
  -- an error of kratos: its status, its reason and its message
  api_error : ℕ → String → String → Error
  -- errors.New, and fmt.Errorf without %w
  message : String → Error
  -- fmt.Errorf("...: %w", err)
  wrapped : String → Error → Error

-- errors.Is(err, pgx.ErrNoRows)
abbrev pub is_no_rows : Error → Bool
is_no_rows no_rows = true
is_no_rows (wrapped s e) = is_no_rows e
is_no_rows _ = false

-- errors.Is(err, data.ErrTagNotFound)
abbrev pub is_tag_not_found : Error → Bool
is_tag_not_found tag_not_found = true
is_tag_not_found (wrapped s e) = is_tag_not_found e
is_tag_not_found _ = false

-- errors.Is(err, data.ErrUserNotFound)
abbrev pub is_user_not_found : Error → Bool
is_user_not_found user_not_found = true
is_user_not_found (wrapped s e) = is_user_not_found e
is_user_not_found _ = false

pub data Result {ℓ} (A : Type ℓ) : Type ℓ where
  ok : A → Result A
  err : Error → Result A

-- errors.Is(err, data.ErrPermissionNotFound)
abbrev pub is_permission_not_found : Error → Bool
is_permission_not_found permission_not_found = true
is_permission_not_found (wrapped s e) = is_permission_not_found e
is_permission_not_found _ = false

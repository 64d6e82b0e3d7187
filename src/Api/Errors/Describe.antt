-- ===== src/Api/Errors/Describe.antt =====
-- `describe_error` of custom_components/wattpilot/api/exceptions.py.
use ha_wattpilot.Base.{Option, none, some, Text, codes, ◌++◌}

-- An exception: one of the client's, by its message; a resolver's, by its class and phrase; or any
-- other, by its class, its number, if it has one, and its text.
pub data Exception : Type 0 where
  own_error : Text → Exception
  resolver_error : Text → Text → Exception
  other_error : Text → Option Text → Text → Exception

-- `errno_name` is what `errno.errorcode` calls a number, or the number as it is.
module _ (errno_name : Text → Text) where
  unfoldable pub describe_error : Exception → Text
  describe_error (own_error message) = message
  describe_error (resolver_error name phrase) = name ++ (codes " (" ++ (phrase ++ codes ")"))
  describe_error (other_error name none message) = name
  describe_error (other_error name (some code) message) =
      name ++ (codes " (" ++ (errno_name code ++ codes ")"))

-- ===== src/Zdbpp/Tests.antt =====
-- The theorems about the interface for C++, over the stub's driver.
use libzdb.Prelude.{ℕ, suc, ◌≡◌, Bool, true, false, [], ◌∷◌, some, none}
use libzdb.Prelude.Int.{pos}
use libzdb.Util.Str.{lit}
use libzdb.Exceptions.{Origin, Code, act, throws, seq}
use libzdb.Exceptions.Meaning.{mean}
use libzdb.Db.Delegate.{Pop}
use libzdb.Db.Connection.{set_available}
use libzdb.Db.ConnectionPool.{ConnectionPool}
use libzdb.Db.ConnectionPool.Members.{Distinct, lent}
use libzdb.Db.ConnectionPool.Tests.{fresh, two_apart, handed_out}
use libzdb.Db.Stub.{plain, pop, connection, setting, half}
use libzdb.Zdbpp.Wrapper.{returned, said, except_wrapper, except_wrapper_return}
use libzdb.Zdbpp.Wrapper.Leaving.{Throws, Escapes, except_wrapper-except_wrapper_return}
use libzdb.Zdbpp.PreparedStatement.{
  Platform, Integral, Argument, Prepared, bind, bind_from, bind_values, mismatch, ◌then◌,
  get_parameter_count, is_count,
}
use libzdb.Zdbpp.PreparedStatement.Binding.{bind_values-bind}
use libzdb.Zdbpp.ConnectionPool.{get_connection, close, destroy}
use libzdb.Zdbpp.ConnectionPool.Scope.{lent_as_handle, get_connection-destroy}

abbrev at : ℕ → Origin
at exception = record { exception = exception; func = lit "f"; file = lit "f.c"; line = 1 }

abbrev failing : Code ℕ
failing = seq (act suc) (throws (at 7) (some (lit "Column index is out of range")))

except_wrapper-except_wrapper_return_example :
    Throws (mean (at 0) failing (at 0) 1) [] (except_wrapper (at 0) failing [] 1)
    × Escapes (mean (at 0) failing (at 0) 1) [] (except_wrapper_return (at 0) failing [] 1)
except_wrapper-except_wrapper_return_example =
    except_wrapper-except_wrapper_return (at 0) failing [] 1

-- Where `long` has 64 bits and is `time_t`.
abbrev size : Integral → ℕ
size Integral.bool = 1
size Integral.char = 1
size Integral.short = 2
size Integral.unsigned_short = 2
size Integral.int = 4
size Integral.unsigned = 4
size type = 8

abbrev is_long : Integral → Bool
is_long Integral.long = true
is_long type = false

abbrev lp64 : Platform
lp64 = record { is_time = is_long; size_of = size }

abbrev pop_of_two : Pop plain
pop_of_two = record pop { parameter_count = λ d w. pos 2 }

abbrev two_parameters : Prepared plain
two_parameters = record {
  t = record { op = pop_of_two; result_set = none; delegate = tt };
  store = [];
}

abbrev age : Argument ℕ
age = Argument.integral Integral.int (pos 30)

abbrev doe : Argument ℕ
doe = Argument.stringable (lit "John Doe")

bind_values-bind_example :
    (is_count 2 (get_parameter_count two_parameters 5) ≡ false
      → bind_values lp64 two_parameters (doe ∷ age ∷ []) 5 ≡ (said mismatch, two_parameters, 5))
    × (get_parameter_count two_parameters 5 ≡ pos 2
        → bind_values lp64 two_parameters (doe ∷ age ∷ []) 5 ≡ (
            bind_from lp64 two_parameters 1 (doe ∷ []) 5
            then (λ u Q v. bind lp64 Q (pos 2) age v then (λ u' R v'. bind_from lp64 R 3 [] v'))))
bind_values-bind_example = bind_values-bind lp64 two_parameters (doe ∷ []) [] age 5

lent_out : (get_connection setting half 1000).0 ≡ returned (some 2)
unfolding set_available
lent_out =
    lent_as_handle setting half 1000 (set_available (connection 2 true) false 1000) handed_out

get_connection-destroy_example :
    let (r, R, v) = get_connection setting half 1000 in
    (Q : ConnectionPool plain) × (w' : ℕ) × (close R (some 2) v ≡ some (none, Q, w'))
    × (destroy Q none w' ≡ some (Q, w'))
    × (destroy R (some 2) v ≡ some (Q, w'))
    × Distinct Q.pool
    × (lent Q.pool ≡ lent half.pool)
get_connection-destroy_example =
    get_connection-destroy setting fresh half 1000 (some 2) two_apart lent_out

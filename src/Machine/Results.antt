-- ===== src/Machine/Results.antt =====
-- A command has one result: two statements of it agree.
use user_thread_scheduler.Common.{◌≡◌, sym, ap, ◌∙◌}
use user_thread_scheduler.Machine.{World, Run, ok, fault, exited, spins, out_of_fuel}

end_of : {A : Type 0} → World → Run A → World
end_of d (ok a w) = w
end_of d fault = d
end_of d (exited c w) = d
end_of d spins = d
end_of d out_of_fuel = d

value_of : {A : Type 0} → A → Run A → A
value_of d (ok a w) = a
value_of d fault = d
value_of d (exited c w) = d
value_of d spins = d
value_of d out_of_fuel = d

module _ {A : Type 0} {run : Run A} {a b : A} {u v : World} where
  pub same_end : run ≡ ok a u → run ≡ ok b v → u ≡ v
  unfolding end_of
  same_end e f = ap (end_of u) (sym e ∙ f)

  pub same_value : run ≡ ok a u → run ≡ ok b v → a ≡ b
  unfolding value_of
  same_value e f = ap (value_of a) (sym e ∙ f)

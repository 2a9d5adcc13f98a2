-- ===== src/DataSource/Tables.antt =====
-- data_source.py: the built-in tasks.
use llm_rl_cpu_poc.Common.{String, none, some, List, [], ◌∷◌, ◌++◌, take}
use llm_rl_cpu_poc.Common.Dict.{Dict}
use llm_rl_cpu_poc.Common.Int.{pos}
use llm_rl_cpu_poc.Types.{str, int}
use llm_rl_cpu_poc.DataSource.{Task}
use Prim.Native.String.{◌++◌ as str_append}

-- `_a`: the prompt is around the entry and its doc text.
unfoldable pub a_task :
    {F P : Type 0} → String → String → String → List String → String → String → Task F P
a_task task_id entry doc tests solution split = record {
  task_id = task_id;
  line = "A";
  prompt =
      str_append
        "Implement the following Python function. Return ONLY a python code block.\n\n```python\ndef "
        (str_append entry (str_append doc "\n```"));
  reward_spec = ("type", str "tests") ∷ [];
  tier = "A";
  tests = tests;
  answer = none;
  entry = entry;
  repo = [];
  test_cmd = "";
  corpus = [];
  max_turns = 1;
  solution = solution;
  image_path = none;
  split = split;
  swe = none;
}

abbrev pub calc_repo : Dict String String
calc_repo =
    ("calc/__init__.py", "from .core import Calculator\n")
    ∷ (
      "calc/core.py",
      "class Calculator:\n    def add(self, a, b): return a + b\n    def div(self, a, b): return a / b  # BUG: no zero guard\n    def avg(self, xs): return sum(xs) / len(xs)  # BUG: empty list crash\n",
    )
    ∷ (
      "test_calc.py",
      "from calc import Calculator\nc = Calculator()\nassert c.add(1, 2) == 3\nassert c.div(4, 2) == 2\nassert c.div(1, 0) is None, 'div by zero should return None'\nassert c.avg([2, 4]) == 3\nassert c.avg([]) is None, 'avg of empty should return None'\nprint('ALL PASS')\n",
    )
    ∷ []

abbrev pub l3_corpus : Dict String String
l3_corpus =
    ("doc_paris", "Paris is the capital of France. The Eiffel Tower is located in Paris.")
    ∷ ("doc_eiffel", "The Eiffel Tower was completed in 1889. It was designed by Gustave Eiffel.")
    ∷ ("doc_france", "France is a country in Europe. Its population is about 68 million.")
    ∷ []

module _ {F P : Type 0} where
  abbrev pub a_reverse_string : Task F P
  a_reverse_string =
      a_task "a_reverse_string" "reverse_string" "(s):\n    \"\"\"Return the reversed string.\"\"\""
        ("assert reverse_string('abc') == 'cba'" ∷ "assert reverse_string('') == ''"
          ∷ "assert reverse_string('a') == 'a'" ∷ "assert reverse_string('ab cd') == 'dc ba'" ∷ [])
        "def reverse_string(s):\n    return s[::-1]\n" "train"

  abbrev pub a_is_palindrome : Task F P
  a_is_palindrome =
      a_task "a_is_palindrome" "is_palindrome"
        "(s):\n    \"\"\"True if s reads the same backwards.\"\"\""
        ("assert is_palindrome('aba') is True" ∷ "assert is_palindrome('abc') is False"
          ∷ "assert is_palindrome('') is True" ∷ "assert is_palindrome('aa') is True" ∷ [])
        "def is_palindrome(s):\n    return s == s[::-1]\n" "train"

  abbrev pub a_max_subarray : Task F P
  a_max_subarray =
      a_task "a_max_subarray" "max_subarray"
        "(nums):\n    \"\"\"Max sum of any contiguous subarray (Kadane).\"\"\""
        ("assert max_subarray([-2,1,-3,4,-1,2,1,-5,4]) == 6" ∷ "assert max_subarray([1]) == 1"
          ∷ "assert max_subarray([-1,-2]) == -1" ∷ "assert max_subarray([5,4,-1,7,8]) == 23" ∷ [])
        "def max_subarray(nums):\n    best = cur = nums[0]\n    for x in nums[1:]:\n        cur = max(x, cur + x)\n        best = max(best, cur)\n    return best\n"
        "train"

  abbrev pub a_count_vowels : Task F P
  a_count_vowels =
      a_task "a_count_vowels" "count_vowels" "(s):\n    \"\"\"Count aeiou (case-insensitive).\"\"\""
        ("assert count_vowels('hello') == 2" ∷ "assert count_vowels('AEIOU') == 5"
          ∷ "assert count_vowels('xyz') == 0" ∷ "assert count_vowels('') == 0" ∷ [])
        "def count_vowels(s):\n    return sum(c in 'aeiou' for c in s.lower())\n" "train"

  abbrev pub a_flatten : Task F P
  a_flatten =
      a_task "a_flatten" "flatten"
        "(xs):\n    \"\"\"Flatten one level of nesting: [[1,2],[3]] -> [1,2,3].\"\"\""
        ("assert flatten([[1,2],[3]]) == [1,2,3]" ∷ "assert flatten([]) == []"
          ∷ "assert flatten([[],[]]) == []" ∷ "assert flatten([[1],[2],[3,4]]) == [1,2,3,4]" ∷ [])
        "def flatten(xs):\n    return [x for sub in xs for x in sub]\n" "train"

  abbrev pub a_fizzbuzz : Task F P
  a_fizzbuzz =
      a_task "a_fizzbuzz" "fizzbuzz"
        "(n):\n    \"\"\"List 1..n with Fizz/Buzz/FizzBuzz substitutions.\"\"\""
        ("assert fizzbuzz(1) == ['1']" ∷ "assert fizzbuzz(3) == ['1','2','Fizz']"
          ∷ "assert fizzbuzz(5)[4] == 'Buzz'" ∷ "assert fizzbuzz(15)[14] == 'FizzBuzz'" ∷ [])
        "def fizzbuzz(n):\n    out = []\n    for i in range(1, n + 1):\n        s = ('Fizz' if i % 3 == 0 else '') + ('Buzz' if i % 5 == 0 else '')\n        out.append(s or str(i))\n    return out\n"
        "train"

  abbrev pub a_second_max : Task F P
  a_second_max =
      a_task "a_second_max" "second_max"
        "(nums):\n    \"\"\"Second largest distinct value; None if <2 distinct.\"\"\""
        ("assert second_max([1,2,3]) == 2" ∷ "assert second_max([5,5]) is None"
          ∷ "assert second_max([3,3,2,1]) == 2" ∷ "assert second_max([1]) is None" ∷ [])
        "def second_max(nums):\n    u = sorted(set(nums), reverse=True)\n    return u[1] if len(u) > 1 else None\n"
        "eval"

  abbrev pub a_word_freq : Task F P
  a_word_freq =
      a_task "a_word_freq" "top_word"
        "(text):\n    \"\"\"Most frequent word (lowercased); ties -> first seen.\"\"\""
        ("assert top_word('a b a') == 'a'" ∷ "assert top_word('x Y y') == 'x'"
          ∷ "assert top_word('one') == 'one'" ∷ [])
        "def top_word(text):\n    from collections import Counter\n    ws = text.lower().split()\n    return max(Counter(ws), key=lambda w: (Counter(ws)[w], -ws.index(w))) if ws else None\n"
        "eval"

  abbrev pub a_tasks : List (Task F P)
  a_tasks =
      a_reverse_string ∷ a_is_palindrome ∷ a_max_subarray ∷ a_count_vowels ∷ a_flatten ∷ a_fizzbuzz
      ∷ a_second_max ∷ a_word_freq ∷ []

  abbrev pub l1_calc_zero : Task F P
  l1_calc_zero = record {
    task_id = "l1_calc_zero";
    line = "L1";
    prompt =
        "Repo has a bug: Calculator.div crashes on zero and avg crashes on empty. Fix calc/core.py so div(...,0) and avg([]) return None. Use tools to read files, edit, and run `python test_calc.py` until ALL PASS.";
    reward_spec = ("type", str "tests") ∷ [];
    tier = "B";
    tests = [];
    answer = none;
    entry = "";
    repo = calc_repo;
    test_cmd = "python test_calc.py";
    corpus = [];
    max_turns = 8;
    solution = "return None guards";
    image_path = none;
    split = "train";
    swe = none;
  }

  abbrev pub l2_log_errors : Task F P
  l2_log_errors = record {
    task_id = "l2_log_errors";
    line = "L2";
    prompt =
        "access.log has lines 'HH:MM LEVEL msg'. Count ERROR lines per hour and write 'HH:count' lines sorted by hour to answer.txt.";
    reward_spec = ("type", str "exact") ∷ [];
    tier = "C";
    tests = [];
    answer = some (str "09:2\n10:1\n11:3");
    entry = "";
    repo = [];
    test_cmd = "";
    corpus = [];
    max_turns = 8;
    solution = "grep ERROR | cut -d: -f1 | sort | uniq -c";
    image_path = none;
    split = "train";
    swe = none;
  }

  abbrev pub l3_eiffel_year : Task F P
  l3_eiffel_year = record {
    task_id = "l3_eiffel_year";
    line = "L3";
    prompt =
        "Answer using the search tool (2 hops needed): In what year was the tower located in the capital of France completed?";
    reward_spec = ("type", str "numeric") ∷ [];
    tier = "C";
    tests = [];
    answer = some (int (pos 1889));
    entry = "";
    repo = [];
    test_cmd = "";
    corpus = l3_corpus;
    max_turns = 8;
    solution = "";
    image_path = none;
    split = "train";
    swe = none;
  }

  abbrev pub v1_bars_tallest_1 : Task F P
  v1_bars_tallest_1 = record {
    task_id = "v1_bars_tallest_1";
    line = "V1";
    prompt = "Look at the bar chart image. How many bars are there? Answer with a single number.";
    reward_spec = ("type", str "numeric") ∷ [];
    tier = "A";
    tests = [];
    answer = some (int (pos 6));
    entry = "";
    repo = [];
    test_cmd = "";
    corpus = [];
    max_turns = 1;
    solution = "";
    image_path = some "vendor/images/v1_bars_tallest_1.png";
    split = "train";
    swe = none;
  }

  abbrev pub v1_bars_tallest_2 : Task F P
  v1_bars_tallest_2 = record {
    task_id = "v1_bars_tallest_2";
    line = "V1";
    prompt = "Look at the bar chart image. How many bars are there? Answer with a single number.";
    reward_spec = ("type", str "numeric") ∷ [];
    tier = "A";
    tests = [];
    answer = some (int (pos 6));
    entry = "";
    repo = [];
    test_cmd = "";
    corpus = [];
    max_turns = 1;
    solution = "";
    image_path = some "vendor/images/v1_bars_tallest_2.png";
    split = "train";
    swe = none;
  }

  abbrev pub v2_shapes_count_1 : Task F P
  v2_shapes_count_1 = record {
    task_id = "v2_shapes_count_1";
    line = "V2";
    prompt = "Look at the image. How many RED CIRCLES are there? Answer with a single number.";
    reward_spec = ("type", str "numeric") ∷ [];
    tier = "A";
    tests = [];
    answer = some (int (pos 3));
    entry = "";
    repo = [];
    test_cmd = "";
    corpus = [];
    max_turns = 1;
    solution = "";
    image_path = some "vendor/images/v2_shapes_1.png";
    split = "train";
    swe = none;
  }

  abbrev pub v2_shapes_count_2 : Task F P
  v2_shapes_count_2 = record {
    task_id = "v2_shapes_count_2";
    line = "V2";
    prompt = "Look at the image. How many RED CIRCLES are there? Answer with a single number.";
    reward_spec = ("type", str "numeric") ∷ [];
    tier = "A";
    tests = [];
    answer = some (int (pos 5));
    entry = "";
    repo = [];
    test_cmd = "";
    corpus = [];
    max_turns = 1;
    solution = "";
    image_path = some "vendor/images/v2_shapes_2.png";
    split = "train";
    swe = none;
  }

  abbrev pub v1_bars_tallest_eval : Task F P
  v1_bars_tallest_eval = record {
    task_id = "v1_bars_tallest_eval";
    line = "V1";
    prompt = "Look at the bar chart image. How many bars are there? Answer with a single number.";
    reward_spec = ("type", str "numeric") ∷ [];
    tier = "A";
    tests = [];
    answer = some (int (pos 6));
    entry = "";
    repo = [];
    test_cmd = "";
    corpus = [];
    max_turns = 1;
    solution = "";
    image_path = some "vendor/images/v1_bars_tallest_eval.png";
    split = "eval";
    swe = none;
  }

  abbrev pub v_tasks : List (Task F P)
  v_tasks =
      v1_bars_tallest_1 ∷ v1_bars_tallest_2 ∷ v2_shapes_count_1 ∷ v2_shapes_count_2
      ∷ v1_bars_tallest_eval ∷ []

  abbrev pub mock_tasks : List (Task F P)
  mock_tasks = take 3 a_tasks

  unfoldable pub all_tasks : List (Task F P)
  all_tasks = a_tasks ++ (l1_calc_zero ∷ (l2_log_errors ∷ (l3_eiffel_year ∷ v_tasks)))
